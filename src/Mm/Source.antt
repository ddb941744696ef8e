-- ===== src/Mm/Source.antt =====
-- What the users of kernel/src/mm/frames.rs ask of it: a frame, and to take one back.
use jungey_os.Prelude.{ℕ, ◌%◌, ◌^◌, ◌<◌, ◌≡◌, ◌⊎◌, Option, some}

pub record FrameSource : Type 1 where
  pub Pool : Type 0
  pub take_frame : Pool → Option ℕ × Pool
  pub give_back : Pool → ℕ → Pool

-- What page tables and the cache rely on: a frame is page-aligned, has an address that an entry can
-- hold, and is not handed out again while it is in use; only what is given back becomes free.
pub record FrameLaws (frames : FrameSource) : Type 1 where
  pub IsFree : frames.Pool → ℕ → Type 0
  pub aligned : (p : frames.Pool) (f : ℕ) → (frames.take_frame p).0 ≡ some f → f % 4096 ≡ 0
  pub small : (p : frames.Pool) (f : ℕ) → (frames.take_frame p).0 ≡ some f → f < 2 ^ 48
  pub was_free : (p : frames.Pool) (f : ℕ) → (frames.take_frame p).0 ≡ some f → IsFree p f
  pub taken :
      (p : frames.Pool) (f : ℕ)
      → (frames.take_frame p).0 ≡ some f
      → ¬ IsFree (frames.take_frame p).1 f
  pub no_more : (p : frames.Pool) (g : ℕ) → IsFree (frames.take_frame p).1 g → IsFree p g
  pub back : (p : frames.Pool) (f g : ℕ) → IsFree (frames.give_back p f) g → IsFree p g ⊎ (g ≡ f)
