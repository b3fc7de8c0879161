-- ===== src/Cli/Tests.antt =====
-- The decoder on a few keys.
use echocoding_harness.Common.{◌≡◌, refl, none, [], ◌∷◌, ◌++◌, units, text_eq, starts_with}
use echocoding_harness.Tools.Files.Edits.{first_match}
use echocoding_harness.Cli.Input.{Decoder, batch, typed, paste, push}

abbrev new_decoder : Decoder
new_decoder = record { buffer = []; pasted = none }

paste_test :
    (push (27 ∷ units "[200~a\nb" ++ (27 ∷ units "[201~c\n")) new_decoder).0
    ≡ batch (units "a\nb") paste ∷ batch (units "c") typed ∷ []
unfolding push first_match units text_eq starts_with
paste_test = refl

-- A line feed that stands before a carriage return with a line feed does not end a batch.
mixed_test : (push (units "a\nb\r\n") new_decoder).0 ≡ batch (units "a\nb") typed ∷ []
unfolding push first_match units text_eq starts_with
mixed_test = refl
