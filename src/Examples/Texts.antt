-- ===== src/Examples/Texts.antt =====
-- Runs on short texts: numbers, packets and their pieces.
use hamang_server.Prelude.{
  List, [], arith, err, invalid_argument, length, negsuc, ok, out_of_range, pos, refl, some, ◌+◌,
  ◌∷◌, ◌≡◌,
}
use hamang_server.Text.{Bytes, codes, find, index_of, substr}
use hamang_server.Text.Decimal.{stoi, to_string}
use hamang_server.Protocol.{net_delim}
use hamang_server.Message.{
  NetworkMessage, append, append_int, build_new_signed_message, new_message,
  save_strings_for_broadcast, split,
}
use hamang_server.Message.Segments.{segments, starts}
use hamang_server.Message.Split.{split_lem}
use hamang_server.Message.Framing.{CanTravel, append_all, packet_tokens, split-build}
use hamang_server.Message.Copy.{save_strings_for_broadcast_lem}
use hamang_server.Message.Numbers.{append_ints, cut_numbers, get_next_int-append_int, get_next_ints}

find_example : (find (codes "ab#c#") b'#' 3 ≡ some 4) × (substr (codes "ab#c#") 3 1 ≡ codes "c")
unfolding find substr index_of
find_example = (refl, refl)

to_string_example : (to_string (negsuc 0) ≡ codes "-1") × (to_string (pos 2048) ≡ codes "2048")
unfolding to_string
to_string_example = (refl, refl)

stoi_example :
    (stoi (codes " -12x") ≡ ok (negsuc 11))
    × (stoi (codes "LEX") ≡ err invalid_argument)
    × (stoi (codes "2147483648") ≡ err out_of_range)
unfolding stoi
stoi_example = (refl, refl, refl)

split_example :
    split 9 new_message (codes "LEX#4#x") b'#'
    ≡ ok (record new_message {
      tokens = codes "LEX" ∷ codes "4" ∷ [];
      start_points = 0 ∷ 4 ∷ [];
      count = 2;
    })
unfolding split find substr index_of
split_example = refl

build_new_signed_message_example :
    build_new_signed_message (append_int (append_int new_message (pos 0)) (negsuc 0))
    ≡ codes "LEX#4#0#-1#"
unfolding build_new_signed_message append_int to_string
build_new_signed_message_example = refl

get_next_int-append_int_example :
    (split
        (length (build_new_signed_message (append_ints new_message (negsuc 41 ∷ pos 7 ∷ []))) + 1)
        new_message
        (build_new_signed_message (append_ints new_message (negsuc 41 ∷ pos 7 ∷ [])))
        net_delim
      ≡ ok (cut_numbers (negsuc 41 ∷ pos 7 ∷ [])))
    × (get_next_ints 2 (record (cut_numbers (negsuc 41 ∷ pos 7 ∷ [])) { iterator = 2 })
        ≡ ok (negsuc 41 ∷ pos 7 ∷ []))
get_next_int-append_int_example =
    get_next_int-append_int (negsuc 41 ∷ pos 7 ∷ []) (omega arith, (omega arith, tt)) (omega arith)

-- Two packets, and the beginning of a third.
abbrev received : Bytes
received = codes "LEX#5#1#3#hi#LEX#4#1#3#LE"

split_lem_example :
    split 99 new_message received net_delim
    ≡ ok (record new_message {
      tokens =
          codes "LEX"
          ∷ codes "5"
          ∷ codes "1"
          ∷ codes "3"
          ∷ codes "hi"
          ∷ codes "LEX"
          ∷ codes "4"
          ∷ codes "1"
          ∷ codes "3"
          ∷ [];
      start_points = 0 ∷ 4 ∷ 6 ∷ 8 ∷ 10 ∷ 13 ∷ 17 ∷ 19 ∷ 21 ∷ [];
      count = 9;
    })
unfolding segments
split_lem_example = split_lem 99 new_message received net_delim (omega arith)

abbrev values : List Bytes
values = codes "0" ∷ codes "7" ∷ codes "x" ∷ []

values-CanTravel : CanTravel values
values-CanTravel = (refl, ((omega arith, tt), ((omega arith, tt), ((omega arith, tt), tt))))

split-build_example :
    split 99 new_message (build_new_signed_message (append_all new_message values)) net_delim
    ≡ ok (record new_message {
      tokens = packet_tokens values;
      start_points = starts 0 (packet_tokens values);
      count = 5;
    })
unfolding build_new_signed_message append to_string
split-build_example = split-build 99 values values-CanTravel (omega arith)

abbrev cut_message : NetworkMessage
cut_message = record new_message {
  tokens = codes "LEX" ∷ codes "4" ∷ codes "1" ∷ codes "3" ∷ codes "LEX" ∷ [];
  end_point = 4;
}

save_strings_for_broadcast_lem_example :
    save_strings_for_broadcast cut_message
    ≡ ok (
      codes "LEX#4#1#3#",
      record cut_message { broadcast_message = codes "LEX#4#1#3#"; count = 4 },
    )
save_strings_for_broadcast_lem_example =
    save_strings_for_broadcast_lem cut_message (omega arith) (omega arith)
