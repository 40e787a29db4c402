-- ===== src/Guidance/Bracket/Tests.antt =====
-- A search of src/guidance/auto_com.cpp with natural numbers for doubles.
use autonomous.Base.{ℕ, ◌<◌, ◌+◌, ◌-◌, ◌*◌, ◌/◌, refl, [], ◌∷◌, arith, ltb, leb}
use autonomous.Base.Int.{pos, pos_part}
use autonomous.Double.{Double}
use autonomous.Guidance.{Range, too_big, too_small}
use autonomous.Guidance.Bracket.{HasHalves, Inside, AgreesAll, narrow_all, narrow_all-Inside}

instance abbrev natural : Double ℕ
natural = record {
  of_int = pos_part;
  lit = λ m k. pos_part m;
  to_int = pos;
  add = ◌+◌;
  sub = ◌-◌;
  mul = ◌*◌;
  div = ◌/◌;
  neg = λ n. 0;
  lt = ltb;
  le = leb;
}

abbrev IsSmall : ℕ → Type 0
IsSmall n = n < 1000

HasHalves-natural : HasHalves ℕ ⦃double = natural⦄ IsSmall
HasHalves-natural = record {
  le_refl = λ a small. ground arith;
  le_trans = λ a b c h k. ground arith;
  between = λ a b c low high h k. ground arith;
  add_le = λ a b c ha hb hc h. (ground arith, ground arith);
  half_le = λ a b h. ground arith;
  half_double = λ a small. omega arith;
}

abbrev start : Range ℕ
start = record { low = 0; high = 128 }

narrow_all-Inside_example :
    Inside start (narrow_all (too_big ∷ too_small ∷ too_small ∷ []) start)
    × AgreesAll
        (too_big ∷ too_small ∷ too_small ∷ [])
        start
        (narrow_all (too_big ∷ too_small ∷ too_small ∷ []) start)
narrow_all-Inside_example =
    narrow_all-Inside HasHalves-natural (too_big ∷ too_small ∷ too_small ∷ []) start
      (omega arith, omega arith, refl)
