-- ===== src/Base/Aead.antt =====
-- ChaCha20-Poly1305, the cipher of all the wire formats, as a parameter.
use Prim.Native.Nat.{ℕ, ◌+◌, ◌-◌}
use mathlib.Core.Path.{◌≡◌, ap, ◌∙◌}
use mathlib.Core.Option.{Option, some}
use mathlib.Core.List.{[], ◌∷◌, ◌++◌}
use native.Mathlib.Omega.{arith}
use tunnelcat_server.Base.Lists.{length, take, length-append, take-append}
use tunnelcat_server.Base.Bytes.{Bytes}

-- The cipher under a fixed key: the nonce, then the text.
pub record Aead : Type 0 where
  pub overhead : ℕ
  pub encrypt : Bytes → Bytes → Bytes
  pub decrypt : Bytes → Bytes → Option Bytes

-- What the code relies on of the cipher.
pub record IsAead (aead : Aead) : Type 0 where
  pub opens : (nonce plain : Bytes) → aead.decrypt nonce (aead.encrypt nonce plain) ≡ some plain
  pub grows :
      (nonce plain : Bytes) → length (aead.encrypt nonce plain) ≡ length plain + aead.overhead

-- A cipher that puts one byte behind the text, for runs.
abbrev pub open_text : Aead
open_text = record {
  overhead = 1;
  encrypt = λ nonce plain. plain ++ 0 ∷ [];
  decrypt = λ nonce text. some (take (length text - 1) text);
}

pub open_text-IsAead : IsAead open_text
open_text-IsAead = record {
  opens = λ nonce plain.
      let e : length (plain ++ 0 ∷ []) - 1 ≡ length plain =
        omega (arith, length-append plain (0 ∷ [])) in
      ap some (ap (λ (k : ℕ). take k (plain ++ 0 ∷ [])) e ∙ take-append plain (0 ∷ []));
  grows = λ nonce plain. length-append plain (0 ∷ []);
}
