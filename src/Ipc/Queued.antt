-- ===== src/Ipc/Queued.antt =====
-- The queues of senders.
use winix.Prelude.{
  ℕ, zero, suc, ◌-◌, ◌^◌, ◌<◌, ◌≡◌, refl, ◌∙◌, ap, Bool, true, false, List, [], ◌∷◌, ◌==◌, arith,
  Bool-cases, inl, inr, ◌⊎◌, ◌&&◌, ltb, ◌+◌, length, some, bit, bit-bit_and, bit-bit_or, bit-pow,
  bit-not_pow, bit_or, bit_xor, bit_and-pow_is_zero,
}
use winix.Ready.{Ptr, null}
use winix.Ready.Chain.{has, Chain}
use winix.Wait.{has_flag}
use winix.Ipc.{Ipc, get_proc, proc_in_use, is_sender, without_flag, state_sending, state_receiving}

-- A process is blocked as a sender, as a receiver.
abbrev pub is_sending : ℕ → Bool
is_sending state = bit state 0

abbrev pub is_receiving : ℕ → Bool
is_receiving state = bit state 1

-- The number of a process in use: one of the ten, with bit 0 of its flags set.
abbrev pub is_process : Ipc → (proc_nr : ℕ) → Bool
is_process s proc_nr = ltb proc_nr 10 && bit (s.flags (proc_nr + 1)) 0

-- The processes `queue d` wait to send to `d`, the last one first. They are blocked as senders, and
-- each waits for one process only.
pub record IsQueued (s : Ipc) (queue : Ptr → List Ptr) : Type 0 where
  pub chain : (d : Ptr) → Chain s.next_sender (s.sender_q d) (queue d)
  pub sending : (d p : Ptr) → has p (queue d) ≡ true → is_sending (s.state p) ≡ true
  pub once : (d e p : Ptr) → has p (queue d) ≡ true → has p (queue e) ≡ true → d ≡ e

-- The flags as bits.
pub has_flag-sending : (w : ℕ) → has_flag w state_sending ≡ is_sending w
has_flag-sending w = ground (arith, bit_and-pow_is_zero w 0)

pub has_flag-receiving : (w : ℕ) → has_flag w state_receiving ≡ is_receiving w
has_flag-receiving w = ground (arith, bit_and-pow_is_zero w 1)

pub is_sending-set : (w : ℕ) → is_sending (bit_or w state_sending) ≡ true
is_sending-set w = bit-bit_or w 1 0 ∙ ground (arith, bit-pow 0 0)

pub is_sending-receiving_set : (w : ℕ) → is_sending (bit_or w state_receiving) ≡ is_sending w
is_sending-receiving_set w = bit-bit_or w 2 0 ∙ ground (arith, bit-pow 1 0)

pub is_sending-receiving_off : (w : ℕ) → is_sending (without_flag w state_receiving) ≡ is_sending w
is_sending-receiving_off w =
    bit-bit_and w (bit_xor (2 ^ 32 - 1) 2) 0 ∙ ground (arith, bit-not_pow 32 1 0 (omega arith))

-- The walk over a queue finds a process that is on it, and ends.
pub is_sender-has :
    (fuel : ℕ) (next_sender : Ptr → Ptr) (dest xp : Ptr) (xs : List Ptr)
    → Chain next_sender xp xs
    → length xs < fuel
    → is_sender fuel next_sender dest xp ≡ some (has dest xs)
unfolding is_sender has
is_sender-has zero next_sender dest xp xs c lt = absurd (omega arith)
is_sender-has (suc fuel) next_sender dest xp [] c lt =
    let e : (xp == null) ≡ true = ground (arith, c) in rw e refl
is_sender-has (suc fuel) next_sender dest xp (x ∷ xs) c lt =
    let filled : (xp == null) ≡ false = ground (arith, c.0, c.1) in
    let rest = is_sender-has fuel next_sender dest (next_sender x) xs c.3 (omega arith) in
    elim (Bool-cases (x == dest)) [
      | inl e ↦ let same : (dest == x) ≡ true = ground arith in rw (filled, c.0, e, same) refl
      | inr e ↦
          let other : (dest == x) ≡ false = ground arith in
          rw (filled, ap next_sender c.0, c.0, e, other) rest
    ]

-- `get_proc` of the number of a process in use is its pointer, and of any other number NULL.
pub get_proc-is_process :
    (s : Ipc) (proc_nr : ℕ)
    → ((is_process s proc_nr ≡ true) × (get_proc s proc_nr ≡ proc_nr + 1))
      ⊎ ((is_process s proc_nr ≡ false) × (get_proc s proc_nr ≡ null))
unfolding get_proc
get_proc-is_process s proc_nr =
    let flag : has_flag (s.flags (proc_nr + 1)) proc_in_use ≡ bit (s.flags (proc_nr + 1)) 0 =
      ground (arith, bit_and-pow_is_zero (s.flags (proc_nr + 1)) 0) in
    elim (Bool-cases (is_process s proc_nr)) [
      | inl e ↦ inl (e, rw (flag, e) refl)
      | inr e ↦ inr (e, rw (flag, e) refl)
    ]
