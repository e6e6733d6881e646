-- ===== src/Httpkit/Recorder/Once.antt =====
-- httpkit/recorder.go: the headers that the wrapped writer gets.
use onekit.Base.{ℕ, ◌+◌, ◌≡◌, ◌≤◌, Option, List, [], ◌∷◌, ◌++◌, if◌then◌else◌, arith}
use onekit.Httpkit.Recorder.{
  Call, header, body, flush_call, Shared, Recorder, new_recorder, is_informational, write_header,
  write, hijack, Op, do_header, do_write, do_hijack, do_flush, step, run,
}

-- A header that ends the response's head.
abbrev pub finals : List Call → ℕ
finals [] = 0
finals (header s ∷ calls) = (if is_informational s then 0 else 1) + finals calls
finals (_ ∷ calls) = finals calls

finals-append : (xs ys : List Call) → finals (xs ++ ys) ≡ finals xs + finals ys
finals-append [] ys = omega arith
finals-append (header s ∷ xs) ys = omega (arith, finals-append xs ys)
finals-append (body ∷ xs) ys = finals-append xs ys
finals-append (flush_call ∷ xs) ys = finals-append xs ys

abbrev Once : Recorder → Type 0
Once r = finals r.sent ≤ (if r.wrote_header then 1 else 0)

step-Once : (op : Op) (r : Recorder) → Once r → Once (step op r)
unfolding step write_header write hijack
step-Once (do_header s) r h = ground (arith, h, finals-append r.sent (header s ∷ []))
step-Once (do_write n) r h = ground (
  arith,
  h,
  finals-append r.sent (header 200 ∷ []),
  finals-append r.sent (body ∷ []),
  finals-append (r.sent ++ header 200 ∷ []) (body ∷ []),
)
step-Once (do_hijack ok) r h = ground (arith, h)
step-Once (do_flush supported) r h = ground (arith, h, finals-append r.sent (flush_call ∷ []))

run-Once : (ops : List Op) (r : Recorder) → Once r → Once (run ops r)
unfolding run
run-Once [] r h = h
run-Once (op ∷ ops) r h = run-Once ops (step op r) (step-Once op r h)

-- Whatever calls a recorder gets, the writer that it wraps gets one header at most that is not
-- informational.
pub finals-run :
    (ops : List Op) (state : Option Shared) → finals (run ops (new_recorder state)).sent ≤ 1
finals-run ops state = ground (arith, run-Once ops (new_recorder state) (omega arith))
