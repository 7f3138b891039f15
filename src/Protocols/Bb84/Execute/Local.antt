-- ===== src/Protocols/Bb84/Execute/Local.antt =====
-- The steps of `execute` take their messages from the front of the queue.
use qchat.Prelude.{
  ℕ, zero, suc, ◌+◌, ◌*◌, sym, Bool, true, false, not, List, [], ◌∷◌, ◌++◌, length, take, drop,
  ok≢err, ltb,
}
use qchat.Value.{Bytes, arr, int, pos, end, field, codes}
use qchat.Value.Words.{to_bytes}
use qchat.Messages.{Json, Kind, bb84}
use qchat.Ecc.{Ecc, chunk, encode, decode}
use qchat.Protocols.{Role, leader, follower, Action, return, lift, item, truthy, ints, get_role}
use qchat.Protocols.Joint.{IsLocal, >>=-IsLocal}
use qchat.Protocols.Joint.Local.{
  lift-IsLocal, return-IsLocal, abort_if-IsLocal, if-IsLocal, get_role-IsLocal, randint-IsLocal,
  wait-IsLocal, send-IsLocal, exchange-IsLocal,
}
use qchat.Protocols.Bb84.{
  ack, row_of, byte_at, factor, equals, exchange_syndrome, reconcile_chunks, reconcile_information,
  answer, amplify_as, amplify_privacy,
}
use qchat.Protocols.Bb84.Execute.{byte_len, int_of_bits, collect, reconcile_enough, derive}

module _ (json : Json) where
  module _ (ecc : Ecc) where
    exchange_syndrome-IsLocal :
        (codeword : List ℕ) (r : Role) → IsLocal (exchange_syndrome json ecc codeword r)
    unfolding exchange_syndrome
    exchange_syndrome-IsLocal codeword leader =
        >>=-IsLocal _ _ (lift-IsLocal (encode ecc codeword)) λ s.
          >>=-IsLocal _ _ (exchange-IsLocal json (field (codes "s") (arr (ints s)) end) bb84) λ m.
            >>=-IsLocal _ _ (lift-IsLocal (item (codes "ack") m.message_data))
              λ a. >>=-IsLocal _ _ (abort_if-IsLocal (not (truthy a))) λ _. return-IsLocal s
    exchange_syndrome-IsLocal codeword follower =
        >>=-IsLocal _ _ (exchange-IsLocal json (ack true) bb84) λ m.
          >>=-IsLocal _ _ (lift-IsLocal (item (codes "s") m.message_data))
            λ s. lift-IsLocal (row_of s)

    reconcile_chunks-IsLocal :
        (cs : List (List ℕ)) (acc : List ℕ) → IsLocal (reconcile_chunks json ecc cs acc)
    unfolding reconcile_chunks
    reconcile_chunks-IsLocal [] acc = return-IsLocal ([], acc)
    reconcile_chunks-IsLocal (c ∷ cs) acc =
        if-IsLocal (ltb (length c) ecc.codeword_length) (return (c, acc)) _
          (return-IsLocal (c, acc))
          (>>=-IsLocal get_role _ get_role-IsLocal λ r.
            >>=-IsLocal _ _ (exchange_syndrome-IsLocal c r) λ s.
              >>=-IsLocal _ _ (lift-IsLocal (decode ecc c s))
                λ corrected. reconcile_chunks-IsLocal cs (acc ++ corrected))

    pub reconcile_information-IsLocal : (x : List ℕ) → IsLocal (reconcile_information json ecc x)
    unfolding reconcile_information
    reconcile_information-IsLocal x = reconcile_chunks-IsLocal (chunk ecc x) []

  answer-IsLocal : (b : Bool) (r : ℕ) → IsLocal (answer json b r)
  unfolding answer
  answer-IsLocal true r =
      >>=-IsLocal _ _ (send-IsLocal json (ack true) bb84) λ _. lift-IsLocal (to_bytes 1 r)
  answer-IsLocal false r =
      >>=-IsLocal _ _ (send-IsLocal json (ack false) bb84) λ _. return-IsLocal []

  amplify_as-IsLocal : (r : Role) (x : Bytes) → IsLocal (amplify_as json r x)
  unfolding amplify_as
  amplify_as-IsLocal leader x = >>=-IsLocal _ _ randint-IsLocal λ y.
      >>=-IsLocal _ _ (lift-IsLocal (byte_at 0 x)) λ x_0.
        >>=-IsLocal _ _ (lift-IsLocal (to_bytes 2 (y * x_0))) λ temp.
          >>=-IsLocal _ _ (lift-IsLocal (byte_at 0 temp)) λ r.
            >>=-IsLocal _ _ (lift-IsLocal (byte_at 1 temp)) λ temp_1.
              >>=-IsLocal _ _ (lift-IsLocal (byte_at 1 x)) λ x_1.
                >>=-IsLocal _ _
                  (exchange-IsLocal json
                    (field (codes "Y") (int (pos y))
                      (field (codes "T") (int (pos (temp_1 + x_1))) end))
                    bb84)
                  λ m. >>=-IsLocal _ _ (lift-IsLocal (item (codes "ack") m.message_data)) λ a.
                    if-IsLocal (truthy a) (lift (to_bytes 1 r)) (return [])
                      (lift-IsLocal (to_bytes 1 r)) (return-IsLocal [])
  amplify_as-IsLocal follower x = >>=-IsLocal _ _ (wait-IsLocal bb84) λ m.
      >>=-IsLocal _ _ (lift-IsLocal (item (codes "Y") m.message_data)) λ y_value.
        >>=-IsLocal _ _ (lift-IsLocal (item (codes "T") m.message_data)) λ t.
          >>=-IsLocal _ _ (lift-IsLocal (factor y_value)) λ y.
            >>=-IsLocal _ _ (lift-IsLocal (byte_at 0 x)) λ x_0.
              >>=-IsLocal _ _ (lift-IsLocal (to_bytes 2 (y * x_0))) λ temp.
                >>=-IsLocal _ _ (lift-IsLocal (byte_at 1 x)) λ x_1.
                  >>=-IsLocal _ _ (lift-IsLocal (byte_at 1 temp)) λ temp_1.
                    >>=-IsLocal _ _ (lift-IsLocal (byte_at 0 temp))
                      λ r. answer-IsLocal (equals (x_1 + temp_1) t) r

  pub amplify_privacy-IsLocal : (x : Bytes) → IsLocal (amplify_privacy json x)
  unfolding amplify_privacy
  amplify_privacy-IsLocal x = >>=-IsLocal get_role _ get_role-IsLocal λ r. amplify_as-IsLocal r x

  module _ (message_type : Kind) (distill : Action (List ℕ)) (ecc : Ecc)
      (local : IsLocal distill) where
    pub collect-IsLocal :
        (fuel : ℕ) (bits : List ℕ) → IsLocal (collect json message_type distill ecc fuel bits)
    unfolding collect
    collect-IsLocal zero bits = λ s rest b s' h. absurd (ok≢err (sym h))
    collect-IsLocal (suc fuel) bits =
        if-IsLocal (ltb (length bits) 23) _ (return bits)
          (>>=-IsLocal distill _ local λ new. collect-IsLocal fuel (bits ++ new))
          (return-IsLocal bits)

    pub reconcile_enough-IsLocal :
        (fuel : ℕ) (bits reconciled : List ℕ)
        → IsLocal (reconcile_enough json message_type distill ecc fuel bits reconciled)
    unfolding reconcile_enough
    reconcile_enough-IsLocal zero bits reconciled = λ s rest b s' h. absurd (ok≢err (sym h))
    reconcile_enough-IsLocal (suc fuel) bits reconciled =
        if-IsLocal (ltb (length reconciled) (2 * byte_len)) _ (return (bits, reconciled))
          (>>=-IsLocal _ _ (collect-IsLocal fuel bits) λ collected.
            >>=-IsLocal _ _ (reconcile_information-IsLocal ecc collected)
              λ r. reconcile_enough-IsLocal fuel r.0 (reconciled ++ r.1))
          (return-IsLocal (bits, reconciled))

    pub derive-IsLocal :
        (fuel key_size : ℕ) (key : Bytes) (bits reconciled : List ℕ)
        → IsLocal (derive json message_type distill ecc fuel key_size key bits reconciled)
    unfolding derive
    derive-IsLocal zero key_size key bits reconciled = λ s rest b s' h. absurd (ok≢err (sym h))
    derive-IsLocal (suc fuel) key_size key bits reconciled =
        if-IsLocal (ltb (length key) key_size) _ (return key)
          (>>=-IsLocal _ _ (reconcile_enough-IsLocal fuel bits reconciled) λ r.
            >>=-IsLocal _ _ (lift-IsLocal (int_of_bits 0 (take (2 * byte_len) r.1))) λ n.
              >>=-IsLocal _ _ (lift-IsLocal (to_bytes 2 n)) λ two.
                >>=-IsLocal _ _ (amplify_privacy-IsLocal two)
                  λ new. derive-IsLocal fuel key_size (key ++ new) r.0 (drop (2 * byte_len) r.1))
          (return-IsLocal key)
