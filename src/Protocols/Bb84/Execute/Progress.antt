-- ===== src/Protocols/Bb84/Execute/Progress.antt =====
-- The rounds of the innermost loop of `execute`.
use qchat.Prelude.{
  ℕ, zero, suc, ◌+◌, ◌≤◌, ◌<◌, ◌≡◌, refl, ◌∙◌, List, [], ◌++◌, length, ok, arith, length-append,
  ltb, le→ltb, ltb→ge, Bool-cases, inl, inr,
}
use qchat.Messages.{Json, Kind}
use qchat.Ecc.{Ecc}
use qchat.Protocols.{Session, Action, >>=-ok}
use qchat.Protocols.Bb84.Execute.{collect}

-- The next `n` distillations succeed, each with a bit or more.
unfoldable pub Distills : Action (List ℕ) → ℕ → Session → Type 0
Distills distill zero s = Unit
Distills distill (suc n) s =
    (bits : List ℕ) × (s' : Session) × (distill s ≡ ok (bits, s'))
    × (0 < length bits)
    × Distills distill n s'

module _ (json : Json) (message_type : Kind) (distill : Action (List ℕ)) (ecc : Ecc) where
  collect-ends :
      (n : ℕ) (bits : List ℕ) (s : Session)
      → 23 ≤ n + length bits
      → Distills distill n s
      → (out : List ℕ) × (s' : Session) × (collect json message_type distill ecc (suc n) bits s
          ≡ ok (out, s'))
        × (23 ≤ length out)
  unfolding collect Distills
  collect-ends zero bits s h runs =
      (bits, s, rw (le→ltb (length bits) 23 (omega (arith, h))) refl, omega (arith, h))
  collect-ends (suc n) bits s h runs = elim (Bool-cases (ltb (length bits) 23)) [
    | inl few ↦
        let (more, s_1, ran, some_bits, later) = runs in
        let (out, s', ends, enough) =
          collect-ends n (bits ++ more) s_1 (omega (arith, length-append bits more)) later in
        (out, s', rw few (>>=-ok distill _ s ran ∙ ends), enough)
    | inr done ↦ (bits, s, rw done refl, ltb→ge (length bits) 23 done)
  ]

  -- If the next 23 distillations succeed, each with a bit or more, then the loop of `execute` that
  -- collects the bits of a codeword ends within 24 passes, with at least 23 bits.
  collect_terminates :
      (s : Session)
      → Distills distill 23 s
      → (out : List ℕ) × (s' : Session) × (collect json message_type distill ecc 24 [] s
          ≡ ok (out, s'))
        × (23 ≤ length out)
  collect_terminates s runs = collect-ends 23 [] s (omega arith) runs
