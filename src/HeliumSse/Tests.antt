-- ===== src/HeliumSse/Tests.antt =====
-- A run of lib/lunula/assets/helium-sse.js, and the theorems of HeliumSse at concrete inputs.
use hacienda.Prelude.{false, ℕ, ◌≡◌, refl, Option, none, some, [], ◌∷◌, Text, codes}
use hacienda.HeliumCsp.Strings.{trim_start, is_space}
use hacienda.HeliumSse.Events.{Stream, receive, split_lines, Fields, read_lines}
use hacienda.HeliumSse.Data.{read_lines-split_lines, with_breaks, field, fields_of}

abbrev no_number : Text → Option ℕ
no_number s = none

abbrev start : Stream
start = record { buffer = []; last_id = none; retry_delay = 3000; updates = [] }

-- An event in two pieces, and the beginning of another one.
two_pieces :
    receive no_number []
      (codes "data: b\nid: 7\n\nda")
      (receive no_number [] (codes "event: log\ndata: a\n") start)
    ≡ record {
      buffer = codes "da";
      last_id = some (codes "7");
      retry_delay = 3000;
      updates = record { text = codes "a\nb"; targets = some (codes "log" ∷ []) } ∷ [];
    }
unfolding receive
two_pieces = refl

abbrev no_fields : Fields
no_fields = record { data_text = []; event = []; id = []; retry_delay = 3000 }

read_lines-split_lines_example :
    read_lines no_number
      (split_lines false [] (with_breaks (field (codes "a")) (fields_of (codes "b" ∷ []))))
      no_fields
    ≡ record no_fields { data_text = codes "a\nb" }
unfolding trim_start is_space
read_lines-split_lines_example =
    read_lines-split_lines no_number (codes "a") (codes "b" ∷ []) no_fields refl (
      ((((refl, refl), tt)), (b'a', [], refl), refl),
      (((((refl, refl), tt)), (b'b', [], refl), refl), tt),
    )
