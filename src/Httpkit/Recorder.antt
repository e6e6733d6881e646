-- ===== src/Httpkit/Recorder.antt =====
-- httpkit/recorder.go: the writer that records the status and the size of a response. The writer that it
-- wraps is outside the model: `sent` lists the calls that it gets, and what it answers comes with each
-- operation. Where a handler flushes before it has sent a header, package net/http sends one with status 200;
-- the recorder of the source does not record that, and takes a later header for the first.
pub mod Refine
pub mod Once
use onekit.Base.{
  ℕ, zero, suc, ◌+◌, ◌%◌, ◌^◌, ◌≡◌, ◌≤◌, ◌<◌, refl, sym, ap, ◌∙◌, Bool, true, false, not, Option,
  none, some, List, [], ◌∷◌, ◌++◌, ◌&&◌, ltb, leb, ◌==◌, between, if◌then◌else◌, arith,
}

-- The calls of the writer that is wrapped.
pub data Call : Type 0 where
  header : ℕ → Call
  body flush_call : Call

-- The part of `State` that the recorder writes.
pub record Shared : Type 0 where
  pub status : ℕ
  pub bytes : ℕ

-- `Recorder`; `bytes` is the bits of an int64.
pub record Recorder : Type 0 where
  pub state : Option Shared
  pub status : ℕ
  pub bytes : ℕ
  pub wrote_header : Bool
  pub sent : List Call

-- `NewRecorder`, and the recorder of `Middleware` with its state.
abbrev pub new_recorder : Option Shared → Recorder
new_recorder state = record {
  state = state;
  status = 0;
  bytes = 0;
  wrote_header = false;
  sent = [];
}

abbrev set_status : ℕ → Option Shared → Option Shared
set_status s none = none
set_status s (some st) = some (record st { status = s })

abbrev add_bytes : ℕ → Option Shared → Option Shared
add_bytes n none = none
add_bytes n (some st) = some (record st { bytes = (st.bytes + n) % 2 ^ 64 })

abbrev pub is_informational : ℕ → Bool
is_informational s = leb 100 s && ltb s 200 && not (s == 101)

-- `wroteHeader = true`, with the status of the recorder and of its state
abbrev fixed : ℕ → Recorder → Recorder
fixed s r = record r { wrote_header = true; status = s; state = set_status s r.state }

abbrev call : Call → Recorder → Recorder
call c r = record r { sent = r.sent ++ c ∷ [] }

-- `WriteHeader`
unfoldable pub write_header : ℕ → Recorder → Recorder
write_header s r =
    if is_informational s
    then call (header s) r
    else if r.wrote_header
    then r
    else call (header s) (fixed s r)

-- `Write`, where the writer has taken `n` bytes, with an error or without one.
unfoldable pub write : ℕ → Recorder → Recorder
unfolding write_header
write n r =
    let r' = call body (if r.wrote_header then r else write_header 200 r) in
    record r' { bytes = (r'.bytes + n) % 2 ^ 64; state = add_bytes n r'.state }

-- `Hijack`, where the writer supports it, and whether it did without an error.
unfoldable pub hijack : Bool → Recorder → Recorder
hijack ok r = if ok && not r.wrote_header then fixed 101 r else r

-- `Flush`, where the writer supports it. Nothing is recorded, though net/http sends a header of its own.
abbrev pub flush : Bool → Recorder → Recorder
flush supported r = if supported then call flush_call r else r

pub data Op : Type 0 where
  do_header do_write : ℕ → Op
  do_hijack do_flush : Bool → Op

unfoldable pub step : Op → Recorder → Recorder
unfolding write_header write hijack
step (do_header s) r = write_header s r
step (do_write n) r = write n r
step (do_hijack ok) r = hijack ok r
step (do_flush supported) r = flush supported r

unfoldable pub run : List Op → Recorder → Recorder
unfolding step
run [] r = r
run (op ∷ ops) r = run ops (step op r)
