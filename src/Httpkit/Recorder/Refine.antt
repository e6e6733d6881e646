-- ===== src/Httpkit/Recorder/Refine.antt =====
-- httpkit/recorder.go: what a recorder holds after any calls, by an account of the calls alone.
use onekit.Base.{
  ℕ, ◌+◌, ◌%◌, ◌^◌, ◌≡◌, refl, sym, subst, ◌∙◌, Bool, true, false, Option, none, some, List, [],
  ◌∷◌, if◌then◌else◌, arith,
}
use onekit.Httpkit.Recorder.{
  Shared, Recorder, new_recorder, is_informational, write_header, write, hijack, Op, do_header,
  do_write, do_hijack, do_flush, step, run,
}

-- The status that a call fixes, if none was fixed before.
abbrev pub fixes : Op → Option ℕ
fixes (do_header s) = if is_informational s then none else some s
fixes (do_write n) = some 200
fixes (do_hijack ok) = if ok then some 101 else none
fixes (do_flush supported) = none

abbrev pub taken : Op → ℕ
taken (do_write n) = n
taken _ = 0

abbrev pub or_first : Option ℕ → Option ℕ → Option ℕ
or_first none later = later
or_first (some s) later = some s

-- The first status that is fixed.
abbrev pub first_status : List Op → Option ℕ
first_status [] = none
first_status (op ∷ ops) = or_first (fixes op) (first_status ops)

-- The bytes that the writer has taken.
abbrev pub total : List Op → ℕ
total [] = 0
total (op ∷ ops) = taken op + total ops

-- The account of a response: the status that is fixed, and the bytes.
pub record Account : Type 0 where
  pub status : Option ℕ
  pub bytes : ℕ

abbrev or_zero : Option ℕ → ℕ
or_zero none = 0
or_zero (some s) = s

abbrev is_fixed : Option ℕ → Bool
is_fixed none = false
is_fixed (some _) = true

abbrev SharedAs : Account → Option Shared → Type 0
SharedAs a none = Unit
SharedAs a (some st) = (st.status ≡ or_zero a.status) × (st.bytes ≡ a.bytes % 2 ^ 64)

-- The recorder, and the state that it shares, hold the account.
abbrev pub Holds : Account → Recorder → Type 0
Holds a r =
    (r.status ≡ or_zero a.status)
    × ((r.wrote_header ≡ is_fixed a.status) × ((r.bytes ≡ a.bytes % 2 ^ 64) × SharedAs a r.state))

abbrev after : Op → Account → Account
after op a = record { status = or_first a.status (fixes op); bytes = a.bytes + taken op }

step-Holds : (op : Op) (a : Account) (r : Recorder) → Holds a r → Holds (after op a) (step op r)
unfolding step write_header write hijack
step-Holds (do_header s) a r h = ground (arith, h)
step-Holds (do_write n) a r h = ground (arith, h)
step-Holds (do_hijack ok) a r h = ground (arith, h)
step-Holds (do_flush supported) a r h = ground (arith, h)

abbrev accounted : List Op → Account → Account
accounted [] a = a
accounted (op ∷ ops) a = accounted ops (after op a)

run-accounted :
    (ops : List Op) (a : Account) (r : Recorder) → Holds a r → Holds (accounted ops a) (run ops r)
unfolding run
run-accounted [] a r h = h
run-accounted (op ∷ ops) a r h = run-accounted ops (after op a) (step op r) (step-Holds op a r h)

or_first_assoc : (a b c : Option ℕ) → or_first (or_first a b) c ≡ or_first a (or_first b c)
or_first_assoc none b c = refl
or_first_assoc (some s) b c = refl

or_first-none : (a : Option ℕ) → or_first a none ≡ a
or_first-none none = refl
or_first-none (some s) = refl

accounted-status :
    (ops : List Op) (a : Account) → (accounted ops a).status ≡ or_first a.status (first_status ops)
accounted-status [] a = sym (or_first-none a.status)
accounted-status (op ∷ ops) a =
    accounted-status ops (after op a) ∙ or_first_assoc a.status (fixes op) (first_status ops)

accounted-bytes : (ops : List Op) (a : Account) → (accounted ops a).bytes ≡ a.bytes + total ops
accounted-bytes [] a = omega arith
accounted-bytes (op ∷ ops) a = omega (arith, accounted-bytes ops (after op a))

abbrev blank : Account
blank = record { status = none; bytes = 0 }

-- The account of the calls of a response.
abbrev pub account : List Op → Account
account ops = record { status = first_status ops; bytes = total ops }

-- A state that nothing was recorded in.
abbrev pub Fresh : Option Shared → Type 0
Fresh none = Unit
Fresh (some st) = (st.status ≡ 0) × (st.bytes ≡ 0)

Fresh-Holds : (state : Option Shared) → Fresh state → Holds blank (new_recorder state)
Fresh-Holds none h = (refl, (refl, (refl, tt)))
Fresh-Holds (some st) h = (refl, (refl, (refl, (h.0, rw h.1 refl))))

-- After any calls a new recorder, and the state that it shares if nothing was recorded in it before, hold
-- the status that the first call fixed which fixes one, by a header that is not informational, a write or
-- a hijacked connection, or 0; and the number of bytes that the writer has taken, modulo 2^64.
pub run_refines :
    (ops : List Op) (state : Option Shared)
    → Fresh state
    → Holds (account ops) (run ops (new_recorder state))
run_refines ops state h =
    subst (λ a. Holds a (run ops (new_recorder state))) whole
      (run-accounted ops blank (new_recorder state) (Fresh-Holds state h))
  where
    summed : (accounted ops blank).bytes ≡ total ops
    summed = omega (arith, accounted-bytes ops blank)

    whole : accounted ops blank ≡ account ops
    whole = λ i. record { status = accounted-status ops blank i; bytes = summed i }
