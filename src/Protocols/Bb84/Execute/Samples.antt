-- ===== src/Protocols/Bb84/Execute/Samples.antt =====
-- A library whose calls return, and numbers with which both parties measure zeros in one basis, but for
-- the follower's first bit of a round, of which its numbers say whether it is flipped.
use qchat.Prelude.{
  ℕ, zero, suc, ◌+◌, ◌-◌, ◌*◌, ◌≤◌, ◌<◌, ◌≡◌, refl, ap, sym, ◌∙◌, List, [], ◌∷◌, ◌++◌, length, drop,
  replicate, ok, arith,
}
use qchat.Value.{Text, Bytes, null, dict, str, field, end, codes}
use qchat.Value.Utf8.{utf8_encode}
use qchat.Messages.{Json, rqqb, encode_message}
use qchat.Ecc.Weight.{IsBits, weight}
use qchat.Protocols.{return, randint}
use qchat.Protocols.Bb84.Execute.Devices.{Measured}
use qchat.Protocols.Bb84.Execute.Whole.{Rounds}
use qchat.Device.{Cqc, Relay}
use qchat.Device.Runs.{Works, EncodesRequests, draws, outcomes, thetas}

abbrev pub json : Json
json = record { dumps = λ v. ok (codes "{}"); loads = λ t. ok (dict end) }

abbrev pub zeros : ℕ → List ℕ
zeros n = replicate n 0

-- A library whose measurements give the next number, whatever the qubit.
abbrev pub simulator : Cqc
simulator = record {
  Qubit = Unit;
  recv_epr = return tt;
  recv_qubit = return tt;
  h = λ q. q;
  rot_y = λ n q. q;
  measure = λ q. randint;
  send_message = λ host port message. return tt;
}

pub simulator-Works : Works simulator
simulator-Works = record {
  epr = tt;
  qubit = tt;
  receives_epr = λ s. refl;
  receives_qubit = λ s. refl;
  measures = λ q s. refl;
  delivers = λ host port message s. refl;
}

abbrev pub relay : Relay
relay = record {
  relay_host = str (codes "localhost");
  relay_port = qchat.Value.int (qchat.Value.pos 8000);
  attempts = 60;
}

pub json-EncodesRequests : EncodesRequests json
unfolding encode_message qchat.Messages.header utf8_encode qchat.Value.Words.to_bytes
json-EncodesRequests name user coded short text short_user =
    let padded = replicate 16 0 ++ coded in
    (
      codes "RQQB" ++ (drop (length padded - 16) padded ++ (0 ∷ 0 ∷ 0 ∷ 2 ∷ codes "{}")),
      rw text refl,
    )

-- The follower's round.
abbrev round : ℕ → List (ℕ × ℕ)
round flip = (0, flip) ∷ replicate 99 (0, 0)

unfoldable pub blocks : List ℕ → List ℕ
blocks [] = []
blocks (flip ∷ flips) = draws (round flip) (blocks flips)

abbrev pub EnoughNumbers : ℕ → ℕ → List ℕ → List ℕ → Type 0
EnoughNumbers n e l f =
    (k : ℕ) × (flips : List ℕ) × (l ≡ zeros k)
    × (f ≡ blocks flips)
    × (225 * n ≤ k)
    × (n ≤ length flips)
    × IsBits flips
    × (weight flips ≤ e)

zeros-split : (m k : ℕ) → m ≤ k → zeros k ≡ zeros m ++ zeros (k - m)
zeros-split zero k h = ap zeros (omega arith)
zeros-split (suc m) zero h = absurd (omega arith)
zeros-split (suc m) (suc k) h =
    ap (◌∷◌ 0) (zeros-split m k (omega arith) ∙ ap (λ j. zeros m ++ zeros j) (omega arith))

draws-zeros : (n k : ℕ) → draws (replicate n (0, 0)) (zeros k) ≡ zeros (n + n + k)
unfolding draws
draws-zeros zero k = ap zeros (omega arith)
draws-zeros (suc n) k = ap (λ l. 0 ∷ 0 ∷ l) (draws-zeros n k) ∙ ap zeros twice
  where
    twice : suc (suc (n + n + k)) ≡ suc n + suc n + k
    twice = omega arith

measured :
    (flip : ℕ)
    → flip < 2
    → Measured
        (outcomes (replicate 100 (0, 0)), thetas (replicate 100 (0, 0)))
        (outcomes (round flip), thetas (round flip))
        flip
        (zeros 25)
unfolding qchat.Protocols.Bb84.Sift.same_basis qchat.Protocols.Bb84.Sift.select
    qchat.Protocols.Bb84.Estimate.differences
measured flip small = record {
  bits_a = ground arith;
  bits_b = (small, ground arith);
  same_length = refl;
  enough = omega arith;
  count = refl;
  range = ground arith;
  apart = ground arith;
}

rounds :
    (n e : ℕ) (l f : List ℕ)
    → EnoughNumbers (suc n) e l f
    → (ps : List (ℕ × ℕ)) × (qs : List (ℕ × ℕ)) × (is : List ℕ) × (ns : List ℕ) × (ms : List ℕ)
      × (d : ℕ) × (e' : ℕ) × (length ps ≡ 100)
      × (length qs ≡ 100)
      × (l ≡ draws ps (is ++ ns))
      × (f ≡ draws qs ms)
      × Measured (outcomes ps, thetas ps) (outcomes qs, thetas qs) d is
      × (d + e' ≤ e)
      × EnoughNumbers n e' ns ms
unfolding blocks weight
rounds n e l f (k, [], same, same_f, long, some_left, bits, few) = absurd (omega arith)
rounds n e l f (k, flip ∷ flips, same, same_f, long, some_left, bits, few) = (
  replicate 100 (0, 0),
  round flip,
  zeros 25,
  zeros (k - 225),
  blocks flips,
  flip,
  e - flip,
  refl,
  refl,
  same
      ∙ ap zeros enough
      ∙ sym (draws-zeros 100 (k - 200))
      ∙ ap (draws (replicate 100 (0, 0)))
          (zeros-split 25 (k - 200) (omega (arith, long)) ∙ ap (λ j. zeros 25 ++ zeros j) left),
  same_f,
  measured flip bits.0,
  omega (arith, few),
  (
    k - 225,
    flips,
    refl,
    refl,
    omega (arith, long),
    omega (arith, some_left),
    bits.1,
    omega (arith, few),
  ),
)
  where
    enough : k ≡ 100 + 100 + (k - 200)
    enough = omega (arith, long)

    left : k - 200 - 25 ≡ k - 225
    left = omega arith

seeds :
    (n e : ℕ) (l f : List ℕ)
    → EnoughNumbers (suc n) e l f
    → (y : ℕ) × (ns : List ℕ) × (l ≡ y ∷ ns) × (y < 256) × EnoughNumbers n e ns f
seeds n e l f (k, flips, same, same_f, long, some_left, bits, few) = (
  0,
  zeros (k - 1),
  same ∙ zeros-split 1 k (omega arith),
  omega arith,
  (k - 1, flips, refl, same_f, omega (arith, long), omega arith, bits, few),
)

pub numbers-Rounds : Rounds EnoughNumbers
numbers-Rounds = record { rounds = rounds; seeds = seeds }

-- Three of the follower's bits are flipped.
abbrev pub lead_numbers : List ℕ
lead_numbers = zeros 5400

abbrev flips : List ℕ
flips = 1 ∷ 1 ∷ 1 ∷ zeros 21

pub follow_numbers : List ℕ
follow_numbers = blocks flips

pub enough_numbers : EnoughNumbers 24 3 lead_numbers follow_numbers
unfolding weight follow_numbers
enough_numbers = (5400, flips, refl, refl, omega arith, omega arith, ground arith, omega arith)
