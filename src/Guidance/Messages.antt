-- ===== src/Guidance/Messages.antt =====
-- What src/guidance/auto_com.cpp reads of a message of the ADIRU.
use autonomous.Base.{ℕ, suc, ◌<◌, ◌≡◌, ◌∙◌, refl, ap, sym, some, List, [], ◌∷◌, length}
use autonomous.Double.{Double}
use autonomous.Math.{vec}
use autonomous.Motor.{Parse, read_doubles}
use autonomous.Motor.Messages.{Reads, StopsAtBlank, read_doubles_from}
use autonomous.Tokenizer.{npos, tokenizer}
use autonomous.Tokenizer.Fields.{join}
use autonomous.Guidance.{Attitude, process_message_string}

module _ {F : Type 0} ⦃double : Double F⦄ (parse : Parse F) (stops : StopsAtBlank parse) where
  -- Where `std::stod` stops at a blank: of a message of nine words that it reads as numbers, shorter
  -- than `npos`, the first three are the acceleration, but of the angles and of the rates only the
  -- second and the third are kept, for y and z, and the coordinates x stay what they were.
  pub process_message_string_lem :
      (a0 : List ℕ) (fields : List (List ℕ)) (v0 v1 v2 v3 v4 v5 v6 v7 v8 : F) (old : Attitude F)
      → Reads parse (a0 ∷ fields) (v0 ∷ v1 ∷ v2 ∷ v3 ∷ v4 ∷ v5 ∷ v6 ∷ v7 ∷ v8 ∷ [])
      → length fields ≡ 8
      → length (join 32 a0 fields) < npos
      → process_message_string parse (join 32 a0 fields) old
        ≡ some (record {
          acceleration = vec v0 v1 v2;
          euler = vec old.euler.x v4 v5;
          euler_rate = vec old.euler_rate.x v7 v8;
        })
  unfolding process_message_string
  process_message_string_lem a0 fields v0 v1 v2 v3 v4 v5 v6 v7 v8 old reads nine small =
      let nine_read =
        ap (λ (n : ℕ). read_doubles parse (suc n) (tokenizer (join 32 a0 fields) 32)) (sym nine)
        ∙ read_doubles_from parse stops 0 (join 32 a0 fields) [] a0 fields v0
            (v1 ∷ v2 ∷ v3 ∷ v4 ∷ v5 ∷ v6 ∷ v7 ∷ v8 ∷ []) refl refl reads small in
      rw nine_read refl
