-- ===== src/Serial/Settings/Laws.antt =====
-- What a setter of serial_base.cpp does to the object and to the port, and what holds of both through
-- a session.
use ares_common.Common.{
  ℕ, ◌^◌, ◌<◌, ◌≡◌, refl, ap, ◌∙◌, Bool, true, false, not, ◌&&◌, ◌||◌, List, [], ◌∷◌, inl, inr,
  arith, Bool-cases,
}
use ares_common.Common.Int.{ℤ, pos, int_eq, is_neg}
use ares_common.Serial.Config.{Constants}
use ares_common.Serial.Posix.{
  SerialPosix, Driver, Replies, System, reconfigure_internal, reconfigure_port, serial_close,
  serial_open, is_empty, update_rts_state, update_dtr_state,
}
use ares_common.Serial.Posix.Laws.{open_lem}
use ares_common.Serial.Settings.{
  Setting, set_port, set_baudrate, set_bytesize, set_exclusive, set_parity, set_stopbits,
  set_timeout, set_write_timeout, set_inter_byte_timeout, set_xonxoff, set_rtscts, set_dsrdtr,
  set_rts, set_dtr, assign, Effect, nothing, reconfigures, sets_rts, sets_dtr, effect, perform,
  change, to_uint32,
}

assign-is_open :
    (s : Setting) (p : SerialPosix) → ((assign s p).is_open ≡ p.is_open) × ((assign s p).fd ≡ p.fd)
unfolding assign
assign-is_open (set_port name) p = (refl, refl)
assign-is_open (set_baudrate b) p = (refl, refl)
assign-is_open (set_bytesize size) p = (refl, refl)
assign-is_open (set_exclusive excl) p = (refl, refl)
assign-is_open (set_parity par) p = (refl, refl)
assign-is_open (set_stopbits bits) p = (refl, refl)
assign-is_open (set_timeout duration) p = (refl, refl)
assign-is_open (set_write_timeout duration) p = (refl, refl)
assign-is_open (set_inter_byte_timeout n) p = (refl, refl)
assign-is_open (set_xonxoff fc) p = (refl, refl)
assign-is_open (set_rtscts fc) p = (refl, refl)
assign-is_open (set_dsrdtr fc) p = (refl, refl)
assign-is_open (set_rts state) p = (refl, refl)
assign-is_open (set_dtr state) p = (refl, refl)

-- The operations of a session on one object.
pub data Operation : Type 0 where
  opens : Replies → Operation
  closes : Operation
  changes : Replies → Setting → Operation

abbrev pub operate : Constants → Operation → System → System
operate c (opens r) s = (serial_open c r s).0
operate c closes s = serial_close s
operate c (changes r x) s = (change c r x s).0

abbrev pub session : Constants → List Operation → System → System
session c [] s = s
session c (x ∷ xs) s = session c xs (operate c x s)

abbrev pub holds : ℤ → List ℤ → Bool
holds z [] = false
holds z (x ∷ xs) = int_eq z x || holds z xs

-- An open port has a descriptor, and the system holds it.
abbrev pub is_consistent : System → Bool
is_consistent (p, d) = not p.is_open || (not (is_neg p.fd) && holds p.fd d.descriptors)

holds-new : (k : ℕ) (ds : List ℤ) → holds (pos k) (pos k ∷ ds) ≡ true
holds-new k ds = ground arith

perform-Keeps :
    (c : Constants) (r : Replies) (e : Effect) (p : SerialPosix) (d : Driver)
    → let ((p', d'), o) = perform c r e (p, d) in (p' ≡ p) × (d'.descriptors ≡ d.descriptors)
unfolding reconfigure_port reconfigure_internal update_rts_state update_dtr_state
perform-Keeps c r nothing p d = (refl, refl)
perform-Keeps c r reconfigures p d = ground arith
perform-Keeps c r sets_rts p d = ground arith
perform-Keeps c r sets_dtr p d = ground arith

change-consistent :
    (c : Constants) (r : Replies) (x : Setting) (s : System)
    → is_consistent s ≡ true
    → is_consistent (change c r x s).0 ≡ true
unfolding change
change-consistent c r x (p, d) h =
    let (e, f) = perform-Keeps c r (effect x) (assign x p) d in
    let (a, b) = assign-is_open x p in rw e (rw f (rw a (rw b h)))

open-refused :
    (c : Constants) (r : Replies) (p : SerialPosix) (d : Driver)
    → is_empty p.attr.port || p.is_open ≡ true
    → (serial_open c r (p, d)).0 ≡ (p, d)
unfolding serial_open
open-refused c r p d b = rw b refl

open-consistent :
    (c : Constants) (r : Replies) (s : System)
    → is_consistent s ≡ true
    → is_consistent (serial_open c r s).0 ≡ true
open-consistent c r (p, d) h = elim (Bool-cases (is_empty p.attr.port || p.is_open)) [
  | inl b ↦ ap is_consistent (open-refused c r p d b) ∙ h
  | inr b ↦
      let (a, e, ds, f) = open_lem c r p d (ground (arith, b)) (ground (arith, b)) in
      elim f [
        | inl l ↦ ground (arith, e, l)
        | inr (k, g, fd) ↦ ground (arith, g, fd, ds, holds-new k d.descriptors)
      ]
]

close-consistent : (s : System) → is_consistent (serial_close s) ≡ true
unfolding serial_close
close-consistent (p, d) = ground arith

operate-consistent :
    (c : Constants) (x : Operation) (s : System)
    → is_consistent s ≡ true
    → is_consistent (operate c x s) ≡ true
operate-consistent c (opens r) s h = open-consistent c r s h
operate-consistent c closes s h = close-consistent s
operate-consistent c (changes r x) s h = change-consistent c r x s h

-- Whatever operations a session makes, and whatever the system answers to them: if at its start an
-- open port had a descriptor that the system holds open, so it is at its end.
pub session-consistent :
    (c : Constants) (xs : List Operation) (s : System)
    → is_consistent s ≡ true
    → is_consistent (session c xs s) ≡ true
session-consistent c [] s h = h
session-consistent c (x ∷ xs) s h =
    session-consistent c xs (operate c x s) (operate-consistent c x s h)

-- The getter of the inter-byte timeout gives back what was set, though the object keeps a signed
-- number: every value of 32 bits.
pub inter_byte_timeout_lem :
    (n : ℕ) (p : SerialPosix)
    → n < 2 ^ 32
    → to_uint32 (assign (set_inter_byte_timeout n) p).attr.inter_byte_timeout ≡ n
unfolding assign
inter_byte_timeout_lem n p h = ground arith
