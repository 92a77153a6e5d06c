-- ===== src/Rlp/Payloads.antt =====
-- The scanner and the offsets that it records, together.
use robinhood_chain_sequence.Prelude.{◌≡◌, List, ◌++◌, ok}
use robinhood_chain_sequence.Bytes.{Bytes}
use robinhood_chain_sequence.Rlp.{scan_list}
use robinhood_chain_sequence.Rlp.Fields.{Field, payloads, list_of, places, ListFits}
use robinhood_chain_sequence.Rlp.RoundTrip.{scan_list-rlp_list, read_all, read_all-rlp_list}

-- An RLP list that the writers encode is scanned whole, whatever bytes follow it: the scan gives one
-- item for each field, and the slices at the recorded offsets are the fields' payloads, in order.
-- Each payload, and the list's content, is shorter than 2 ^ 64 bytes.
pub scan_list-list_of :
    (fs : List Field) (rest : Bytes)
    → ListFits fs
    → (scan_list (list_of fs ++ rest) ≡ ok (places fs))
      × (read_all (list_of fs ++ rest) (places fs) ≡ payloads fs)
scan_list-list_of fs rest fits =
    (scan_list-rlp_list fs rest fits.each fits.whole, read_all-rlp_list fs rest)
