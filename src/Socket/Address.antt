-- ===== src/Socket/Address.antt =====
-- The addresses of src/backend/socket.cpp as the kernel reads them.
use autonomous.Base.{
  ℕ, ◌≡◌, ◌≢◌, ◌<◌, refl, arith, Option, none, some, List, [], ◌∷◌, ◌++◌, All, length, ◌==◌,
  if◌then◌else◌,
}
use autonomous.I2c.{overwrite}
use autonomous.Gps.Thread.{c_string}
use autonomous.Socket.{unix, domain_code, SockaddrUn, un_fields, strcpy}

-- The file that an address of the local domain names: its path up to the first NUL. An address whose
-- path starts with NUL names no file.
abbrev pub file_of : SockaddrUn → Option (List ℕ)
file_of a =
    if a.sun_family == domain_code unix
    then (elim (c_string a.sun_path) [ [] ↦ none | x ∷ path ↦ some (x ∷ path) ])
    else none

c_string-nonzero : (src : List ℕ) → All (λ x. x ≢ 0) (c_string src)
unfolding c_string
c_string-nonzero [] = ground arith
c_string-nonzero (x ∷ src) = ground (arith, c_string-nonzero src)

-- A text that is copied with its NUL over a longer memory is read back.
c_string-overwrite :
    (text dest : List ℕ)
    → All (λ x. x ≢ 0) text
    → length text < length dest
    → c_string (overwrite (text ++ 0 ∷ []) dest) ≡ text
unfolding c_string overwrite
c_string-overwrite text [] h short = absurd (omega (arith, short))
c_string-overwrite [] (x ∷ dest) h short = refl
c_string-overwrite (t ∷ text) (x ∷ dest) h short =
    ground (arith, c_string-overwrite text dest h.1 (omega (arith, short)))

pub c_string-strcpy :
    (dest src dest' : List ℕ) → strcpy dest src ≡ some dest' → c_string dest' ≡ c_string src
unfolding strcpy
c_string-strcpy dest src dest' h =
    ground (arith, c_string-overwrite (c_string src) dest (c_string-nonzero src))

pub strcpy-fits :
    (dest src : List ℕ)
    → length (c_string src) < length dest
    → (dest' : List ℕ) × (strcpy dest src ≡ some dest')
unfolding strcpy
strcpy-fits dest src h = (overwrite (c_string src ++ 0 ∷ []) dest, ground (arith, h))

pub strcpy-inv :
    (dest src dest' : List ℕ) → strcpy dest src ≡ some dest' → length (c_string src) < length dest
unfolding strcpy
strcpy-inv dest src dest' h = ground (arith, h)

-- The address with a copied path names that path, where it is not empty.
pub file_of_copied :
    (dest src dest' : List ℕ)
    → strcpy dest src ≡ some dest'
    → 0 < length (c_string src)
    → file_of (un_fields dest') ≡ some (c_string src)
file_of_copied dest src dest' h some_path =
    rw (c_string-strcpy dest src dest' h) (whole (c_string src) some_path)
  where
    whole :
        (path : List ℕ)
        → 0 < length path
        → elim path as (λ p. Option (List ℕ)) [ [] ↦ none | x ∷ rest ↦ some (x ∷ rest) ] ≡ some path
    whole [] h = absurd (omega (arith, h))
    whole (x ∷ path) h = refl
