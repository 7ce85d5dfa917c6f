-- ===== src/Serial/Posix/Laws.antt =====
-- Opening, setting up and closing a port: serial_posix.cpp, with the setters of serial_base.cpp.
use ares_common.Common.{
  ℕ, ◌≡◌, refl, sym, ap, ◌∙◌, Bool, true, false, ◌||◌, if◌then◌else◌, List, ◌∷◌, ◌⊎◌, inl, inr,
  arith,
}
use ares_common.Common.Int.{ℤ, pos, negsuc, int_eq}
use ares_common.Serial.Config.{Constants}
use ares_common.Serial.Posix.{
  Outcome, returned, threw, overflow, waiting, SerialPosix, Driver, Opened, no_descriptor,
  descriptor, Replies, System, without, reconfigure_internal, update_rts_state, update_dtr_state,
  serial_close, init_flow_control, reset_buffer, set_up, finish, is_empty, opened, serial_open,
}

-- What a step of `open` may not touch.
record Kept (s t : System) : Type 0 where
  same_fd : t.0.fd ≡ s.0.fd
  same_open : t.0.is_open ≡ s.0.is_open
  same_attr : t.0.attr ≡ s.0.attr
  same_descriptors : t.1.descriptors ≡ s.1.descriptors

set_up-Kept : (c : Constants) (r : Replies) (s : System) → Kept s (set_up c r s).0
unfolding set_up init_flow_control reset_buffer reconfigure_internal update_rts_state
    update_dtr_state
set_up-Kept c r s = record {
  same_fd = ground arith;
  same_open = ground arith;
  same_attr = ground arith;
  same_descriptors = ground arith;
}

abbrev pub succeeded : Outcome (Unit {0}) → Bool
succeeded (returned x) = true
succeeded _ = false

-- The descriptors once `open_port` has answered.
abbrev pub with_new : Opened → List ℤ → List ℤ
with_new (no_descriptor e) ds = ds
with_new (descriptor k) ds = pos k ∷ ds

int_eq_self : (z : ℤ) → int_eq z z ≡ true
int_eq_self (pos n) = ground arith
int_eq_self (negsuc n) = ground arith

-- What the end of `open` makes of the port that has been set up, or not.
finish_lem :
    (s : System) (o : Outcome (Unit {0}))
    → s.0.is_open ≡ false
    → let (t, o') = finish (s, o) in
      (o' ≡ o)
      × (t.0.attr ≡ s.0.attr)
      × (t.0.fd ≡ s.0.fd)
      × (t.0.is_open ≡ succeeded o)
      × (t.1.descriptors ≡ s.1.descriptors)
unfolding serial_close
finish_lem s (returned x) h = (refl, refl, refl, refl, refl)
finish_lem s (threw e) h = rw h (refl, refl, refl, refl, refl)
finish_lem s overflow h = (refl, refl, refl, h, refl)
finish_lem s waiting h = (refl, refl, refl, h, refl)

-- `open` after the name and the flag were looked at.
opened_lem :
    (c : Constants) (r : Replies) (reply : Opened) (p : SerialPosix) (d : Driver)
    → p.is_open ≡ false
    → let ((p', d'), o) = opened c r reply (p, d) in
      (p'.attr ≡ p.attr)
      × (p'.is_open ≡ succeeded o)
      × (d'.descriptors ≡ with_new reply d.descriptors)
      × ((succeeded o ≡ false) ⊎ ((k : ℕ) × (reply ≡ descriptor k) × (p'.fd ≡ pos k)))
opened_lem c r (no_descriptor e) p d h = (refl, h, refl, inl refl)
opened_lem c r (descriptor k) p d h =
    let s : System = (record p { fd = pos k }, record d { descriptors = pos k ∷ d.descriptors }) in
    let (t, o) = set_up c r s in
    let w = set_up-Kept c r s in
    let (e, a, f, b, ds) = finish_lem t o (w.same_open ∙ h) in
    (
      a ∙ w.same_attr,
      b ∙ ap succeeded (sym e),
      ds ∙ w.same_descriptors,
      inr (k, refl, f ∙ w.same_fd),
    )

-- Opening a closed port whose name is not empty: the port is open in the end just when the call
-- returns, which it does only if the system gave a descriptor, and then the port has that one. A
-- descriptor that the system gave is open in the end even if the call throws.
pub open_lem :
    (c : Constants) (r : Replies) (p : SerialPosix) (d : Driver)
    → p.is_open ≡ false
    → is_empty p.attr.port ≡ false
    → let ((p', d'), o) = serial_open c r (p, d) in
      (p'.attr ≡ p.attr)
      × (p'.is_open ≡ succeeded o)
      × (d'.descriptors ≡ with_new r.open_reply d.descriptors)
      × ((succeeded o ≡ false) ⊎ ((k : ℕ) × (r.open_reply ≡ descriptor k) × (p'.fd ≡ pos k)))
unfolding serial_open
open_lem c r p d h n =
    let g : is_empty p.attr.port || p.is_open ≡ false = ground (arith, h, n) in
    rw g (opened_lem c r r.open_reply p d h)

without-head : (z : ℤ) (ds : List ℤ) → without z (z ∷ ds) ≡ ds
without-head z ds = rw (int_eq_self z) refl

-- A closed port with a name is opened and then closed: in the end it is closed, and if the opening
-- returned, the open descriptors are those of before; if it failed, a descriptor that the system gave
-- is still open.
pub close-open :
    (c : Constants) (r : Replies) (p : SerialPosix) (d : Driver)
    → p.is_open ≡ false
    → is_empty p.attr.port ≡ false
    → let (s, o) = serial_open c r (p, d) in
      ((serial_close s).0.is_open ≡ false)
      × ((serial_close s).1.descriptors
          ≡ (if succeeded o then d.descriptors else with_new r.open_reply d.descriptors))
unfolding serial_close
close-open c r p d h n =
    let (a, b, ds, f) = open_lem c r p d h n in
    elim f [
      | inl l ↦ ground (arith, b, ds, l)
      | inr (k, e, g) ↦ ground (arith, b, ds, e, g, without-head (pos k) d.descriptors)
    ]
