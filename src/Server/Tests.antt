-- ===== src/Server/Tests.antt =====
-- Runs of the server's theorems.
use droidmirror.Base.{ℕ, zero, suc, ◌<◌, ◌≤◌, ◌⊎◌, true, List, length, take, sym, ap, ◌∙◌, inr}
use droidmirror.Base.Result.{Result, err}
use droidmirror.Base.Bytes.{take-length}
use droidmirror.Server.Net.{ErrorKind, would_block, interrupted, Socket, SocketLaws}
use droidmirror.Server.Net.Sends.{Draining}
use droidmirror.Base.{◌↔◌, ◌+◌, ◌≡◌, refl, arith, false, some, [], ◌∷◌, ◌++◌, inl}
use droidmirror.Base.Result.{ok}
use droidmirror.Base.Int.{pos}
use droidmirror.Base.Text.{ascii}
use droidmirror.Base.TestFloat.{whole}
use droidmirror.Proto.Tests.{home, home_bytes, homes-IsEncoded}
use droidmirror.Server.Control.{capture_ctrl, Device}
use droidmirror.Server.Touch.{no_slots, any_down, apply, action_down}
use droidmirror.Server.Uinput.{uinput_inject, type_chars}
use droidmirror.Server.Demux.{apply_all, push_chunks, push_chunks-encoded}
use droidmirror.Server.Kernel.{Kernel, sense_all, apply_refines}
use droidmirror.Server.Keys.{ascii_to_linux}
use droidmirror.Server.Codes.{kernel_letter, ascii_to_linux-kernel_letter}
use droidmirror.Server.Typing.{read_events, keys_of, type_chars-keys}
use droidmirror.Server.Size.{fit_max_size}
use droidmirror.Server.Even.{IsSide, fit_max_size-IsSide}

abbrev idle : Device whole uinput_inject capture_ctrl
idle = (
  record { slots = no_slots; written = [] },
  record { paused = false; bitrate = 8000000; max_fps = 60; params_dirty = false },
)

push_chunks-encoded_example :
    push_chunks whole uinput_inject capture_ctrl (home_bytes ∷ home_bytes ∷ []) ([], idle, ok tt)
    ≡ ([], apply_all whole uinput_inject capture_ctrl (home ∷ home ∷ []) idle, ok tt)
push_chunks-encoded_example =
    push_chunks-encoded whole uinput_inject capture_ctrl (home ∷ home ∷ []) home_bytes
      (home_bytes ∷ []) idle homes-IsEncoded

abbrev kernel : Kernel
kernel = record { slot = 3; contacts = no_slots; button = false }

apply_refines_example :
    ((sense_all (apply no_slots action_down 2 (pos 10) (pos 20) 5).1 kernel).contacts
      ≡ (apply no_slots action_down 2 (pos 10) (pos 20) 5).0)
    × ((sense_all (apply no_slots action_down 2 (pos 10) (pos 20) 5).1 kernel).button
        ≡ any_down (apply no_slots action_down 2 (pos 10) (pos 20) 5).0)
apply_refines_example =
    apply_refines no_slots kernel action_down 2 (pos 10) (pos 20) 5 refl (inl refl)

ascii_to_linux-kernel_letter_example :
    (ascii_to_linux (b'a' + 12) ≡ some (30 + 12, false))
    × ((ascii_to_linux (b'a' + 12) ≡ some (kernel_letter 12, false)) ↔ (◌≡◌ {A = ℕ} 12 0))
ascii_to_linux-kernel_letter_example = ascii_to_linux-kernel_letter 12 (omega arith)

type_chars-keys_example :
    read_events (type_chars (ascii "Ab")) (record { shift = false; typed = [] })
    ≡ record { shift = false; typed = [] ++ keys_of (ascii "Ab") }
type_chars-keys_example = type_chars-keys (ascii "Ab") [] (omega arith)

fit_max_size-IsSide_example :
    IsSide (fit_max_size whole 1081 2401 1).0 × IsSide (fit_max_size whole 1081 2401 1).1
fit_max_size-IsSide_example =
    fit_max_size-IsSide whole 1081 2401 1 (λ e. omega (arith, e)) (λ e. omega (arith, e))

-- A socket that puts off a number of writes.
record Line : Type 0 where
  pub out : List ℕ
  pub delay : ℕ

abbrev line_write : List ℕ → ℕ → Line → Result ErrorKind ℕ × Line
line_write bs zero w = (ok (length bs), record w { out = w.out ++ bs })
line_write bs (suc n) w = (err would_block, record w { delay = n })

abbrev line : Socket Line
line = record {
  write = λ bs w. line_write bs w.delay w;
  read = λ room w. (ok [], w);
  poll = λ timeout_ms w.
      (ok (record { count = 0; pollin = true; pollhup = false; pollerr = false }), w);
  sleep_ms = λ ms w. w;
}

line_wrote :
    (b : ℕ) (bs : List ℕ) (k : ℕ) (w w' : Line) (n : ℕ)
    → line_write (b ∷ bs) k w ≡ (ok n, w')
    → (0 < n) × (n ≤ length (b ∷ bs)) × (w'.out ≡ w.out ++ take n (b ∷ bs))
line_wrote b bs zero w w' n e =
    let count : suc (length bs) ≡ n = cc in
    let same : w.out ++ (b ∷ bs) ≡ w'.out = ap (λ (p : Result ErrorKind ℕ × Line). p.1.out) e in
    (
      omega (arith, count),
      omega (arith, count),
      sym same
          ∙ ap (λ l. w.out ++ l) (sym (take-length (b ∷ bs)))
          ∙ ap (λ k. w.out ++ take k (b ∷ bs)) count,
    )
line_wrote b bs (suc k) w w' n e = cc

line_failed :
    (bs : List ℕ) (j : ℕ) (w w' : Line) (k : ErrorKind)
    → line_write bs j w ≡ (err k, w')
    → w'.out ≡ w.out
line_failed bs zero w w' k e = cc
line_failed bs (suc j) w w' k e =
    let same : record w { delay = j } ≡ w' = cc in ap (λ (l : Line). l.out) (sym same)

abbrev line_laws : SocketLaws line
line_laws = record {
  sent = λ w. w.out;
  wrote = λ b bs w w' n e. line_wrote b bs w.delay w w' n e;
  failed = λ bs w w' k e. line_failed bs w.delay w w' k e;
  reads = λ room w. refl;
  polls = λ timeout_ms w. refl;
  sleeps = λ ms w. refl;
}

line_moves :
    (bs : List ℕ) (k : ℕ) (w w' : Line) (n : ℕ)
    → line_write bs k w ≡ (ok n, w')
    → w'.delay ≤ w.delay
line_moves bs zero w w' n e =
    let same : w.delay ≡ w'.delay = ap (λ (p : Result ErrorKind ℕ × Line). p.1.delay) e in
    omega (arith, same)
line_moves bs (suc k) w w' n e = cc

line_waits :
    (bs : List ℕ) (k : ℕ) (w w' : Line)
    → k ≡ w.delay
    → (line_write bs k w ≡ (err interrupted, w')) ⊎ (line_write bs k w ≡ (err would_block, w'))
    → w'.delay < w.delay
line_waits bs zero w w' h (inl e) = cc
line_waits bs zero w w' h (inr e) = cc
line_waits bs (suc k) w w' h (inl e) = cc
line_waits bs (suc k) w w' h (inr e) =
    let same : k ≡ w'.delay = ap (λ (p : Result ErrorKind ℕ × Line). p.1.delay) e in
    omega (arith, same, h)

abbrev line_drains : Draining line line_laws
line_drains = record {
  stalls = λ w. w.delay;
  moves = λ bs w w' n e. line_moves bs w.delay w w' n e;
  put_off = λ bs w w' e. line_waits bs w.delay w w' refl e;
  waits = λ ms w. omega arith;
}

abbrev busy : Line
busy = record { out = []; delay = 2 }
