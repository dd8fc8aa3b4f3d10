-- ===== src/Token/Signer.antt =====
-- A stand-in for the token library of server/src/services/jwt.service.ts whose tokens hold the expiry, the
-- audience and the claims, for the tests: it meets what is assumed of the library.
use Prim.Native.Char.{code}
use Prim.Native.String.{[], ◌∷◌}
use learnvault.Prelude.{
  ℕ, zero, suc, ◌+◌, ◌/◌, ◌≡◌, refl, String, Option, none, some, ◌==◌, ◌&&◌, ltb, str_eq,
  if◌then◌else◌,
}
use Prim.Native.Char.{Char}
use learnvault.Token.Service.{Jwt, Claims, Payload}
use learnvault.Token.Issue.{IsSigner}

-- A text in front of another, each character marked by an x and the end by a y, and a number likewise.
abbrev write : String → String → String
write [] rest = "y" ∷ rest
write (c ∷ s) rest = "x" ∷ (c ∷ write s rest)

abbrev write_number : ℕ → String → String
write_number zero rest = "y" ∷ rest
write_number (suc n) rest = "x" ∷ write_number n rest

abbrev with_char : Char → Option (String × String) → Option (String × String)
with_char c none = none
with_char c (some (s, rest)) = some (c ∷ s, rest)

abbrev read : String → Option (String × String)
read [] = none
read (m ∷ []) = if code m == 121 then some ([], []) else none
read (m ∷ (c ∷ s)) =
    let more = with_char c (read s) in if code m == 121 then some ([], c ∷ s) else more

abbrev one_more : Option (ℕ × String) → Option (ℕ × String)
one_more none = none
one_more (some (n, rest)) = some (suc n, rest)

abbrev read_number : String → Option (ℕ × String)
read_number [] = none
read_number (m ∷ s) =
    let more = one_more (read_number s) in if code m == 121 then some (0, s) else more

read-write : (s rest : String) → read (write s rest) ≡ some (s, rest)
read-write [] [] = refl
read-write [] (c ∷ rest) = refl
read-write (c ∷ s) rest = rw (read-write s rest) refl

read_number-write_number :
    (n : ℕ) (rest : String) → read_number (write_number n rest) ≡ some (n, rest)
read_number-write_number zero rest = refl
read_number-write_number (suc n) rest = rw (read_number-write_number n rest) refl

module _ (t : ℕ) (asked : String) where
  abbrev typed : ℕ → String → String → String → Option (String × String) → Option Payload
  typed exp audience sub jti none = none
  typed exp audience sub jti (some (type, rest)) =
      if str_eq asked audience && ltb (t / 1000) exp
      then some (record { sub = some sub; jti = some jti; type = some type })
      else none

  abbrev named : ℕ → String → String → Option (String × String) → Option Payload
  named exp audience sub none = none
  named exp audience sub (some (jti, rest)) = typed exp audience sub jti (read rest)

  abbrev owned : ℕ → String → Option (String × String) → Option Payload
  owned exp audience none = none
  owned exp audience (some (sub, rest)) = named exp audience sub (read rest)

  abbrev addressed : ℕ → Option (String × String) → Option Payload
  addressed exp none = none
  addressed exp (some (audience, rest)) = owned exp audience (read rest)

  abbrev dated : Option (ℕ × String) → Option Payload
  dated none = none
  dated (some (exp, rest)) = addressed exp (read rest)

abbrev expiry : Option (ℕ × String) → Option ℕ
expiry none = none
expiry (some (exp, rest)) = some exp

abbrev claims_text : Claims → String
claims_text c = write c.sub (write c.jti (write c.type []))

unfoldable pub signer : Jwt
signer = record {
  sign = λ now c expires_in audience.
      write_number (now / 1000 + expires_in) (write audience (claims_text c));
  verify = λ t asked token. dated t asked (read_number token);
  decode_exp = λ token. expiry (read_number token);
}

pub signer-IsSigner : IsSigner signer
unfolding signer
signer-IsSigner now t expires_in c audience asked =
    rw
      (
        read_number-write_number (now / 1000 + expires_in) (write audience (claims_text c)),
        read-write audience (claims_text c),
        read-write c.sub (write c.jti (write c.type [])),
        read-write c.jti (write c.type []),
        read-write c.type [],
      )
      refl
