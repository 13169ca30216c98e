-- ===== src/RemoteApple/EventLog.antt =====
-- The events of a job (src/lib.rs, module `remote_apple_protocol`).
use devicelane.Shared.{
  ℕ, zero, suc, ◌+◌, ◌<◌, ◌≡◌, refl, subst, true, false, List, [], ◌∷◌, ◌++◌, ltb, length, any,
  drop, retain, arith,
}
use devicelane.RemoteApple.Protocol.{ProgressEvent}

-- The events are numbered one after the other.
abbrev pub Numbered : ℕ → List ProgressEvent → Type 0
Numbered n [] = Unit
Numbered n (e ∷ es) = (e.sequence ≡ n) × Numbered (suc n) es

-- Nothing follows a terminal event.
abbrev pub Ends : List ProgressEvent → Type 0
Ends [] = Unit
Ends (e ∷ es) = (e.terminal ≡ true → es ≡ []) × Ends es

pub record IsEventLog (es : List ProgressEvent) : Type 0 where
  pub numbered : Numbered 1 es
  pub ends : Ends es

Numbered-append :
    (n : ℕ) (es : List ProgressEvent) (x : ProgressEvent)
    → Numbered n es
    → x.sequence ≡ length es + n
    → Numbered n (es ++ x ∷ [])
Numbered-append n [] x h k = ground arith
Numbered-append n (e ∷ es) x h k = (h.0, Numbered-append (suc n) es x h.1 (omega (arith, k)))

Ends-append :
    (es : List ProgressEvent) (x : ProgressEvent)
    → any (λ e. e.terminal) es ≡ false
    → Ends es
    → Ends (es ++ x ∷ [])
Ends-append [] x unfinished h = ((λ _. refl), tt)
Ends-append (e ∷ es) x unfinished h = (
  (λ last. absurd (ground (arith, last, unfinished))),
  Ends-append es x (ground (arith, unfinished)) h.1,
)

pub IsEventLog-append :
    (es : List ProgressEvent) (x : ProgressEvent)
    → IsEventLog es
    → any (λ e. e.terminal) es ≡ false
    → x.sequence ≡ length es + 1
    → IsEventLog (es ++ x ∷ [])
IsEventLog-append es x v unfinished at = record {
  numbered = Numbered-append 1 es x v.numbered at;
  ends = Ends-append es x unfinished v.ends;
}

-- Those above a sequence are those after so many.
retain-Numbered :
    (after n : ℕ) (es : List ProgressEvent)
    → Numbered n es
    → after < n
    → retain (λ e. ltb after e.sequence) es ≡ es
retain-Numbered after n [] h k = refl
retain-Numbered after n (e ∷ es) h k =
    ground (arith, h.0, k, retain-Numbered after (suc n) es h.1 (omega (arith, k)))

pub retain-drop :
    (k n : ℕ) (es : List ProgressEvent)
    → Numbered (suc n) es
    → retain (λ e. ltb (n + k) e.sequence) es ≡ drop k es
retain-drop zero n [] h = refl
retain-drop (suc k) n [] h = refl
retain-drop zero n (e ∷ es) h = retain-Numbered (n + 0) (suc n) (e ∷ es) h (omega arith)
retain-drop (suc k) n (e ∷ es) h =
    let skip : ltb (n + suc k) e.sequence ≡ false = ground (arith, h.0) in
    rw skip (
      subst (λ m. retain (λ x. ltb m x.sequence) es ≡ drop k es) (omega arith)
        (retain-drop k (suc n) es h.1))
