-- ===== src/Overlapped/Handles.antt =====
-- source/windows/overlapped.cpp: how often the event of an operation is closed.
use datapath.Base.{
  ◌==◌, if◌then◌else◌, ℕ, suc, ◌+◌, ◌≡◌, refl, ◌∙◌, Option, some, List, [], ◌∷◌, ◌++◌, arith,
}
use datapath.Overlapped.{
  Call, Overlapped, cancel, reset, destroy, set_handle, set_data, get_waitable, close_handle,
  construct,
}

-- What can be done with an object between its construction and its destruction.
pub data Use : Type 0 where
  sets_handle : Option ℕ → Use
  sets_data : ℕ → Use
  cancels resets : Use

unfoldable pub apply : Overlapped → Use → Overlapped × List Call
unfolding set_handle set_data cancel reset
apply ov (sets_handle h) = (set_handle ov h, [])
apply ov (sets_data d) = (set_data ov d, [])
apply ov cancels = (ov, cancel ov)
apply ov resets = reset ov

-- The calls of a series of uses and of the destruction behind it.
unfoldable pub live : Overlapped → List Use → List Call
unfolding apply destroy
live ov [] = destroy ov
live ov (u ∷ us) = (apply ov u).1 ++ live (apply ov u).0 us

abbrev closes_event : ℕ → Call → ℕ
closes_event e (close_handle h) = if h == e then 1 else 0
closes_event e _ = 0

abbrev pub close_count : ℕ → List Call → ℕ
close_count e [] = 0
close_count e (c ∷ cs) = closes_event e c + close_count e cs

abbrev cancel_count : List Use → ℕ
cancel_count [] = 0
cancel_count (cancels ∷ us) = suc (cancel_count us)
cancel_count (resets ∷ us) = suc (cancel_count us)
cancel_count (u ∷ us) = cancel_count us

pub close_count-append :
    (e : ℕ) (cs ds : List Call) → close_count e (cs ++ ds) ≡ close_count e cs + close_count e ds
close_count-append e [] ds = omega arith
close_count-append e (c ∷ cs) ds = omega (arith, close_count-append e cs ds)

pub cancel-close_count :
    (ov : Overlapped) (e : ℕ) → get_waitable ov ≡ some e → close_count e (cancel ov) ≡ 1
unfolding cancel get_waitable
cancel-close_count ov e h = ground arith

apply-get_waitable : (ov : Overlapped) (u : Use) → get_waitable (apply ov u).0 ≡ get_waitable ov
unfolding apply get_waitable
apply-get_waitable ov (sets_handle h) = refl
apply-get_waitable ov resets = ground arith
apply-get_waitable ov u = refl

live-close_count :
    (us : List Use) (ov : Overlapped) (e : ℕ)
    → get_waitable ov ≡ some e
    → close_count e (live ov us) ≡ cancel_count us + 1
unfolding live apply
live-close_count [] ov e h = cancel-close_count ov e h
live-close_count (sets_handle n ∷ us) ov e h =
    live-close_count us (set_handle ov n) e (apply-get_waitable ov (sets_handle n) ∙ h)
live-close_count (sets_data d ∷ us) ov e h =
    live-close_count us (set_data ov d) e (apply-get_waitable ov (sets_data d) ∙ h)
live-close_count (cancels ∷ us) ov e h = omega (
  arith,
  close_count-append e (cancel ov) (live ov us),
  cancel-close_count ov e h,
  live-close_count us ov e h,
)
live-close_count (resets ∷ us) ov e h = omega (
  arith,
  close_count-append e (cancel ov) (live (reset ov).0 us),
  cancel-close_count ov e h,
  live-close_count us (reset ov).0 e (apply-get_waitable ov resets ∙ h),
)

pub apply_each : Overlapped → List Use → Overlapped
apply_each ov [] = ov
apply_each ov (u ∷ us) = apply_each (apply ov u).0 us

apply_each-get_waitable :
    (us : List Use) (ov : Overlapped) → get_waitable (apply_each ov us) ≡ get_waitable ov
unfolding apply_each
apply_each-get_waitable [] ov = refl
apply_each-get_waitable (u ∷ us) ov =
    apply_each-get_waitable us (apply ov u).0 ∙ apply-get_waitable ov u

-- From its construction to its destruction an object that is cancelled or reset n times closes the
-- event that it was given n + 1 times, and no use puts another event in its place: it closes its
-- event exactly once only if it is never cancelled or reset.
pub construct-close_count :
    (event : ℕ) (us : List Use)
    → (close_count event (live (construct event).0 us) ≡ cancel_count us + 1)
      × (get_waitable (apply_each (construct event).0 us) ≡ some event)
unfolding construct get_waitable
construct-close_count event us = (
  live-close_count us (construct event).0 event refl,
  apply_each-get_waitable us (construct event).0,
)
