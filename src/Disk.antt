-- ===== src/Disk.antt =====
-- kernel/src/blk.rs: sectors, read and written by requests to a driver process. The process is outside;
-- what it makes of the n-th request is an argument, carried by the device. A request that gets no
-- answer in time may have been carried out or not, and is not carried out later.
pub mod Wire
pub mod Replies
pub mod Own
pub mod Deadline
mod Tests
use jungey_os.Prelude.{
  ℕ, ◌+◌, ◌≡◌, ◌≢◌, ◌⊎◌, inl, inr, refl, String, Bool, true, false, Result, ok, err, ◌==◌,
  if◌then◌else◌,
}

abbrev pub sector_size : ℕ
sector_size = 512

-- The byte at each offset.
abbrev pub Sector : Type 0
Sector = ℕ → ℕ

abbrev pub blank : Sector
blank = λ i. 0

pub data Fate : Type 0 where
  serves : Fate
  refuses : Fate
  keeps_silent : (carried_out : Bool) → Fate

pub record Device : Type 0 where
  pub sectors : ℕ → Sector
  pub fate : ℕ → Fate
  pub requests : ℕ

abbrev pub put_sector : (ℕ → Sector) → ℕ → Sector → ℕ → Sector
put_sector sectors sector bytes = λ n. if n == sector then bytes else sectors n

-- What a write gives back.
abbrev pub Done : Type 0
Done = Unit

unfoldable pub answer_read : Fate → Sector → Result Sector
answer_read serves held = ok held
answer_read refuses held = err "driver reported an error"
answer_read (keeps_silent carried_out) held = err "block driver did not answer"

answer_write : Fate → Result Done
answer_write serves = ok tt
answer_write refuses = err "driver reported an error"
answer_write (keeps_silent carried_out) = err "block driver did not answer"

unfoldable pub carried_out : Fate → Bool
carried_out serves = true
carried_out refuses = false
carried_out (keeps_silent b) = b

unfoldable pub read_sector : Device → ℕ → Result Sector × Device
unfolding answer_read
read_sector d sector =
    (answer_read (d.fate d.requests) (d.sectors sector), record d { requests = d.requests + 1 })

unfoldable pub write_sector : Device → ℕ → Sector → Result Done × Device
unfolding answer_write carried_out
write_sector d sector bytes = (
  answer_write (d.fate d.requests),
  record d {
    requests = d.requests + 1;
    sectors =
        if carried_out (d.fate d.requests) then put_sector d.sectors sector bytes else d.sectors;
  },
)

-- The question mark: an error ends the function.
unfoldable pub and_then {ℓ κ} :
    {A : Type ℓ} {B : Type κ}
    → Result A × Device
    → (A → Device → Result B × Device)
    → Result B × Device
and_then (ok a, d) k = k a d
and_then (err e, d) k = (err e, d)

fate-cases : (f : Fate) → (f ≡ serves) ⊎ (f ≡ refuses) ⊎ ((b : Bool) × (f ≡ keeps_silent b))
fate-cases serves = inl refl
fate-cases refuses = inr (inl refl)
fate-cases (keeps_silent b) = inr (inr (b, refl))

-- A request to write that succeeds has been carried out; one that fails may have been.
pub write_sector_lem :
    (d : Device) (sector : ℕ) (bytes : Sector)
    → (((write_sector d sector bytes).0 ≡ ok tt)
        × ((write_sector d sector bytes).1.sectors ≡ put_sector d.sectors sector bytes))
      ⊎ ((e : String) × ((write_sector d sector bytes).0 ≡ err e)
          × (((write_sector d sector bytes).1.sectors ≡ d.sectors)
              ⊎ ((write_sector d sector bytes).1.sectors ≡ put_sector d.sectors sector bytes)))
unfolding write_sector
write_sector_lem d sector bytes = elim (fate-cases (d.fate d.requests)) [
  | inl e ↦ inl (rw (e, write_sector) refl, rw (e, write_sector) refl)
  | inr (inl e) ↦
      inr ("driver reported an error", rw (e, write_sector) refl, inl (rw (e, write_sector) refl))
  | inr (inr (true, e)) ↦
      inr
        ("block driver did not answer", rw (e, write_sector) refl, inr (rw (e, write_sector) refl))
  | inr (inr (false, e)) ↦
      inr
        ("block driver did not answer", rw (e, write_sector) refl, inl (rw (e, write_sector) refl))
]

-- The device after a request that changed nothing.
abbrev pub asked : Device → Device
asked d = record d { requests = d.requests + 1 }

-- A request to read gives what stands there, or it was not served. Nothing on the disk changes.
pub read_sector_lem :
    (d : Device) (sector : ℕ)
    → (read_sector d sector ≡ (ok (d.sectors sector), asked d))
      ⊎ ((e : String) × (read_sector d sector ≡ (err e, asked d)) × (d.fate d.requests ≢ serves))
unfolding read_sector
read_sector_lem d sector = elim (fate-cases (d.fate d.requests)) [
  | inl e ↦ inl (rw (e, answer_read) refl)
  | inr (inl e) ↦ inr ("driver reported an error", rw (e, answer_read) refl, λ s. cc)
  | inr (inr (b, e)) ↦ inr ("block driver did not answer", rw (e, answer_read) refl, λ s. cc)
]

pub read_sector_served :
    (d : Device) (sector : ℕ)
    → d.fate d.requests ≡ serves
    → read_sector d sector ≡ (ok (d.sectors sector), asked d)
unfolding read_sector
read_sector_served d sector e = rw (e, answer_read) refl

pub write_sector_served :
    (d : Device) (sector : ℕ) (bytes : Sector)
    → d.fate d.requests ≡ serves
    → write_sector d sector bytes
      ≡ (ok tt, record (asked d) { sectors = put_sector d.sectors sector bytes })
unfolding write_sector
write_sector_served d sector bytes e = rw (e, write_sector) refl
