-- ===== src/Mpro/Pipeline/Token.antt =====
-- mpro_pipeline.c: a single transfer is in flight, whatever the threads and the host do.
use packages.Base.{
  ◌+◌, ◌≤◌, ◌≡◌, refl, sym, All-remove, Bool, true, false, Option, none, some, List, ◌∷◌, ◌++◌,
  length, arith, flag, All, All-empty, All-middle, length-middle, is_some, Bool-cases, inl, inr,
}
use packages.Mpro.Pipeline.Xfer.{Xfer}
use packages.Mpro.Pipeline.System.{System}

-- `in_flight` counts the activities that hold a transfer: threads about to submit, URBs that are
-- out, and the queued work. `current_xfer` is set with it, and is what each of them holds.
pub record Token (in_flight : Bool) (current : Option Xfer) (subs ctrl bulk : List Xfer)
    (work : Bool) : Type 0 where
  pub counted : length subs + length ctrl + length bulk + flag work ≡ flag in_flight
  pub current_set : is_some current ≡ in_flight
  pub subs_hold : All (λ t. current ≡ some t) subs
  pub ctrl_hold : All (λ t. current ≡ some t) ctrl
  pub bulk_hold : All (λ t. current ≡ some t) bulk

abbrev pub HasToken : System → Type 0
HasToken s = Token s.pipe.in_flight s.pipe.current_xfer s.submitters s.on_ctrl s.on_bulk s.work

abbrev IsHeldBy : Option Xfer → Xfer → Type 0
IsHeldBy c t = c ≡ some t

-- A section that ends with nothing in flight, when no activity is left.
pub drop-Token :
    {subs ctrl bulk : List Xfer} {work : Bool}
    → length subs + length ctrl + length bulk + flag work ≡ 0
    → Token false none subs ctrl bulk work
drop-Token {subs} {ctrl} {bulk} e = record {
  counted = e;
  current_set = refl;
  subs_hold = All-empty (IsHeldBy none) subs (omega arith);
  ctrl_hold = All-empty (IsHeldBy none) ctrl (omega arith);
  bulk_hold = All-empty (IsHeldBy none) bulk (omega arith);
}

module _ {f : Bool} {c : Option Xfer} {subs ctrl bulk : List Xfer} {work : Bool} where
  -- With nothing in flight a thread may take the token for `t`.
  pub take-Token :
      (t : Xfer)
      → f ≡ false
      → Token f c subs ctrl bulk work
      → Token true (some t) (t ∷ subs) ctrl bulk work
  take-Token t e h = record {
    counted = ground (arith, h.counted);
    current_set = refl;
    subs_hold = (refl, All-empty (IsHeldBy (some t)) subs (ground (arith, h.counted)));
    ctrl_hold = All-empty (IsHeldBy (some t)) ctrl (ground (arith, h.counted));
    bulk_hold = All-empty (IsHeldBy (some t)) bulk (ground (arith, h.counted));
  }

pub flag_le : (b : Bool) → flag b ≤ 1
flag_le true = omega arith
flag_le false = omega arith

module _ {f : Bool} {c : Option Xfer} (before : List Xfer) (t : Xfer) (after : List Xfer) where
  -- A thread's submission succeeds: the token goes to the control URB.
  pub submitted-Token :
      {ctrl bulk : List Xfer} {work : Bool}
      → Token f c (before ++ t ∷ after) ctrl bulk work
      → Token f c (before ++ after) (t ∷ ctrl) bulk work
  submitted-Token h = record {
    counted = omega (arith, h.counted, length-middle before t after);
    current_set = h.current_set;
    subs_hold = All-remove (IsHeldBy c) before t after h.subs_hold;
    ctrl_hold = (All-middle (IsHeldBy c) before t after h.subs_hold, h.ctrl_hold);
    bulk_hold = h.bulk_hold;
  }

  -- It fails: the token is gone.
  pub refused-Token :
      {ctrl bulk : List Xfer} {work : Bool}
      → Token f c (before ++ t ∷ after) ctrl bulk work
      → Token false none (before ++ after) ctrl bulk work
  refused-Token h = drop-Token (omega (arith, h.counted, length-middle before t after, flag_le f))

  pub ctrl_ok-Token :
      {subs bulk : List Xfer} {work : Bool}
      → Token f c subs (before ++ t ∷ after) bulk work
      → Token f c subs (before ++ after) (t ∷ bulk) work
  ctrl_ok-Token h = record {
    counted = omega (arith, h.counted, length-middle before t after);
    current_set = h.current_set;
    subs_hold = h.subs_hold;
    ctrl_hold = All-remove (IsHeldBy c) before t after h.ctrl_hold;
    bulk_hold = (All-middle (IsHeldBy c) before t after h.ctrl_hold, h.bulk_hold);
  }

  pub ctrl_failed-Token :
      {subs bulk : List Xfer} {work : Bool}
      → Token f c subs (before ++ t ∷ after) bulk work
      → Token f c subs (before ++ after) bulk true
  ctrl_failed-Token {work = true} h =
      absurd (omega (arith, h.counted, length-middle before t after, flag_le f))
  ctrl_failed-Token {work = false} h = record {
    counted = omega (arith, h.counted, length-middle before t after);
    current_set = h.current_set;
    subs_hold = h.subs_hold;
    ctrl_hold = All-remove (IsHeldBy c) before t after h.ctrl_hold;
    bulk_hold = h.bulk_hold;
  }

  pub bulk_done-Token :
      {subs ctrl : List Xfer} {work : Bool}
      → Token f c subs ctrl (before ++ t ∷ after) work
      → Token f c subs ctrl (before ++ after) true
  bulk_done-Token {work = true} h =
      absurd (omega (arith, h.counted, length-middle before t after, flag_le f))
  bulk_done-Token {work = false} h = record {
    counted = omega (arith, h.counted, length-middle before t after);
    current_set = h.current_set;
    subs_hold = h.subs_hold;
    ctrl_hold = h.ctrl_hold;
    bulk_hold = All-remove (IsHeldBy c) before t after h.bulk_hold;
  }

-- The work passes the token on to the next transfer, or gives it up.
module _ {f : Bool} {c : Option Xfer} {subs ctrl bulk : List Xfer} where
  pub work_next-Token :
      (t : Xfer)
      → Token f c subs ctrl bulk true
      → (f ≡ true) × Token f (some t) (t ∷ subs) ctrl bulk false
  work_next-Token t h = elim (Bool-cases f) [
    | inl up ↦ (
      up,
      record {
        counted = ground (arith, h.counted);
        current_set = sym up;
        subs_hold = (refl, All-empty (IsHeldBy (some t)) subs (ground (arith, h.counted)));
        ctrl_hold = All-empty (IsHeldBy (some t)) ctrl (ground (arith, h.counted));
        bulk_hold = All-empty (IsHeldBy (some t)) bulk (ground (arith, h.counted));
      },
    )
    | inr down ↦ absurd (ground (arith, h.counted))
  ]

  pub work_idle-Token : Token f c subs ctrl bulk true → Token false none subs ctrl bulk false
  work_idle-Token h = drop-Token (omega (arith, h.counted, flag_le f))
