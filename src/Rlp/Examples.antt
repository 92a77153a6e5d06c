-- ===== src/Rlp/Examples.antt =====
-- Runs of the RLP theorems on small data.
use robinhood_chain_sequence.Prelude.{
  ◌≡◌, refl, arith, List, [], ◌∷◌, ◌++◌, ok, replicate, ◌≤◌, length,
}
use robinhood_chain_sequence.Bytes.{Bytes, to_bytes, byte_length, bit_length}
use robinhood_chain_sequence.Rlp.{Item, scan_list, list_bounds, rlp_bytes, rlp_list}
use robinhood_chain_sequence.Rlp.Fields.{
  Field, string, nested, encode_all, payloads, list_of, places, ListFits,
}
use robinhood_chain_sequence.Rlp.RoundTrip.{read_all}
use robinhood_chain_sequence.Rlp.Payloads.{scan_list-list_of}
use robinhood_chain_sequence.Rlp.Scan.{Tiles, scan_list-Tiles}

-- A byte, a string with a long header, the empty string and a list.
abbrev mixed_fields : List Field
mixed_fields = string (7 ∷ []) ∷ string (replicate 60 9) ∷ string [] ∷ nested (1 ∷ 2 ∷ []) ∷ []

length-mixed_fields : length (encode_all mixed_fields) ≡ 67
unfolding rlp_bytes rlp_list byte_length bit_length to_bytes
length-mixed_fields = refl

mixed_fields-ListFits : ListFits mixed_fields
mixed_fields-ListFits = record {
  each = (omega arith, (omega arith, (omega arith, (omega arith, tt))));
  whole = omega (arith, length-mixed_fields);
}

scan_list-list_of_example :
    (scan_list (list_of mixed_fields ++ 5 ∷ []) ≡ ok (places mixed_fields))
    × (read_all (list_of mixed_fields ++ 5 ∷ []) (places mixed_fields) ≡ payloads mixed_fields)
scan_list-list_of_example = scan_list-list_of mixed_fields (5 ∷ []) mixed_fields-ListFits

abbrev short_list : Bytes
short_list = 0xc3 ∷ 1 ∷ 0x81 ∷ 200 ∷ 99 ∷ []

abbrev short_items : List Item
short_items =
    record { item_start = 1; payload_start = 1; payload_end = 2 }
    ∷ record { item_start = 2; payload_start = 3; payload_end = 4 }
    ∷ []

short_scan : scan_list short_list ≡ ok short_items
unfolding scan_list
short_scan = refl

scan_list-Tiles_example :
    Tiles (list_bounds short_list).0 (list_bounds short_list).1 short_items
    × ((list_bounds short_list).1 ≤ length short_list)
scan_list-Tiles_example = scan_list-Tiles short_list short_items short_scan
