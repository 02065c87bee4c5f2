-- ===== src/Windows/Goroutines/Sent.antt =====
-- server_std.go: the bytes that `writeLoop` sends for a connection, while its goroutines run.
pub mod Writes
pub mod Flow
pub mod Safe
use gev.Base.{
  ℕ, ◌≡◌, refl, sym, ap, ◌∙◌, subst, Bool, true, false, List, [], ◌∷◌, ◌++◌, append_assoc,
  append-nil,
}
use gev.Deps.{Deps, Bytes}
use gev.Deps.Laws.{contents}
use gev.Windows.{Parts, SendTask}
use gev.Windows.Goroutines.{
  Pc, polling, swapping, running, sending, closing_send, flushing, closing_end, ended,
  writing_second, Shared,
}

abbrev pub IsPrefix : Bytes → Bytes → Type 0
IsPrefix xs ys = (zs : Bytes) × (xs ++ zs ≡ ys)

-- Before the second write the buffer holds its bytes.
abbrev pub AtSecond : Pc → Bytes → Type 0
AtSecond (writing_second e) waiting = waiting ≡ e
AtSecond _ waiting = Unit {0}

-- Neither in a task nor in a `Close` of `writeLoop`.
abbrev pub is_quiet : Pc → Bool
is_quiet sending = false
is_quiet closing_send = false
is_quiet closing_end = false
is_quiet _ = true

-- In a `Close` of `writeLoop`.
abbrev pub is_closing : Pc → Bool
is_closing closing_send = true
is_closing closing_end = true
is_closing _ = false

pub IsPrefix-append : (xs ys zs : Bytes) → IsPrefix xs ys → IsPrefix xs (ys ++ zs)
IsPrefix-append xs ys zs (ws, e) = (ws ++ zs, sym (append_assoc xs ws zs) ∙ ap (λ t. t ++ zs) e)

pub IsPrefix-trans : (xs ys zs : Bytes) → IsPrefix xs ys → IsPrefix ys zs → IsPrefix xs zs
IsPrefix-trans xs ys zs (a, e) (b, h) = (a ++ b, sym (append_assoc xs a b) ∙ ap (λ t. t ++ b) e ∙ h)

pub IsPrefix-left : (xs ws ys : Bytes) → IsPrefix (xs ++ ws) ys → IsPrefix xs ys
IsPrefix-left xs ws ys (zs, e) = (ws ++ zs, sym (append_assoc xs ws zs) ∙ e)

module _ (D : Deps) (S : Parts D) (sent : ℕ → D.Os → Bytes) where
  abbrev pub sent_of : Shared D → Bytes
  sent_of s = sent s.base.self s.base.os

  abbrev pub waiting : Shared D → Bytes
  waiting s = contents D s.base.conn.out_buffer

  abbrev pub total : Shared D → Bytes
  total s = sent_of s ++ waiting s

module _ (D : Deps) (S : Parts D) where
  -- The packets of some tasks, one behind the other.
  abbrev pub packets : List (SendTask D) → Bytes
  packets [] = []
  packets (t ∷ ts) = S.packet t.value ++ packets ts

  pub packets-append : (ts us : List (SendTask D)) → packets (ts ++ us) ≡ packets ts ++ packets us
  packets-append [] us = refl
  packets-append (t ∷ ts) us =
      ap (λ b. S.packet t.value ++ b) (packets-append ts us)
      ∙ sym (append_assoc (S.packet t.value) (packets ts) (packets us))

  pub packets-snoc :
      (ts : List (SendTask D)) (f : SendTask D)
      → packets (ts ++ f ∷ []) ≡ packets ts ++ S.packet f.value
  packets-snoc ts f =
      packets-append ts (f ∷ []) ∙ ap (λ b. packets ts ++ b) (append-nil (S.packet f.value))

  pub IsPrefix-packets :
      (xs : Bytes) (ts us : List (SendTask D)) {vs : List (SendTask D)}
      → ts ++ us ≡ vs
      → IsPrefix xs (packets ts)
      → IsPrefix xs (packets vs)
  IsPrefix-packets xs ts us e h =
      subst (λ t. IsPrefix xs t) (sym (packets-append ts us) ∙ ap packets e)
        (IsPrefix-append xs (packets ts) (packets us) h)
