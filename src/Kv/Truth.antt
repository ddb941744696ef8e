-- ===== src/Kv/Truth.antt =====
-- kernel/src/kv.rs: what `read` answers, whatever calls came before.
use jungey_os.Prelude.{
  ℕ, ◌≡◌, ◌≢◌, refl, ap, min, none, List, [], ◌∷◌, get_elem?, ltb, if◌then◌else◌, String,
}
use jungey_os.Mm.Source.{FrameSource, FrameLaws}
use jungey_os.Kv.{Block, Session, Kv, block_bytes, pattern_of}
use jungey_os.Kv.Ops.{read, Answer, found, waits, fails}
use jungey_os.Kv.Keep.{BlockAt}
use jungey_os.Kv.Read.{IsSpilled}
use jungey_os.Kv.Promise.{Call, opens, appends, reads, call, calls}
use jungey_os.Kv.Blocks.{At}
use jungey_os.Kv.Faithful.{Faithful}
use jungey_os.Kv.Given.{IsRead, read-IsFaithful}
use jungey_os.Kv.Added.{open-IsFaithful, append_one-IsFaithful}
use jungey_os.Kv.Promise.{view, promised_all}
use jungey_os.Kv.Refines.{calls-refine}
use jungey_os.Kv.Settled.{IsSettled, read-IsSettled, calls-IsSettled}
use jungey_os.Kv.Fails.{read-fails}

-- What a read is to answer: the bytes of the block, as many as fit, and the rest of the buffer as it
-- was; or an error, but not for a block that is there and in memory.
pub IsAnswer : (ss : List Session) (id index len : ℕ) → (out : ℕ → ℕ) → Answer → Type 0
IsAnswer ss id index len out (found was_resident bytes) =
    (o : ℕ) → bytes o ≡ (if ltb o (min len block_bytes) then pattern_of id index o else out o)
IsAnswer ss id index len out waits = ⊥
IsAnswer ss id index len out (fails e) = (b : Block) → BlockAt ss id index b → IsSpilled b

to_answer :
    (ss : List Session) (id index len : ℕ) (out : ℕ → ℕ) (a : Answer)
    → IsRead id index len out a
    → a ≢ waits
    → ((e : String) (b : Block) → BlockAt ss id index b → a ≡ fails e → IsSpilled b)
    → IsAnswer ss id index len out a
unfolding IsAnswer
to_answer ss id index len out (found was_resident bytes) h w f = h was_resident bytes refl
to_answer ss id index len out waits h w f = w refl
to_answer ss id index len out (fails e) h w f = λ b p. f e b p refl

module _ (frames : FrameSource) (laws : FrameLaws frames) where
  open frames use {Pool, take_frame, give_back}
  open laws use {IsFree, was_free, taken, no_more, back}

  call-IsFaithful :
      (c : Call) (k : Kv Pool) → Faithful frames laws k → Faithful frames laws (call frames c k).1
  unfolding call
  call-IsFaithful (opens owner model) k h = open-IsFaithful frames laws owner model k h
  call-IsFaithful (appends id) k h = append_one-IsFaithful frames laws id k h
  call-IsFaithful (reads id index len out) k h =
      (read-IsFaithful frames laws id index len out k h).0

  calls-IsFaithful :
      (cs : List Call) (k : Kv Pool)
      → Faithful frames laws k
      → Faithful frames laws (calls frames cs k).1
  unfolding calls
  calls-IsFaithful [] k h = h
  calls-IsFaithful (c ∷ cs) k h = calls-IsFaithful cs (call frames c k).1 (call-IsFaithful c k h)

  no_block : (ss : List Session) (i j id : ℕ) (b : Block) → ss ≡ [] → ¬ At ss i j id b
  no_block ss i j id b e at =
      let here = at.at_session in
      let none' : get_elem? ss i ≡ none = ap (λ (ts : List Session). get_elem? ts i) e in cc

  no_sessions-IsFaithful : (k : Kv Pool) → k.cache.sessions ≡ [] → Faithful frames laws k
  no_sessions-IsFaithful k e = record {
    content = λ i j id b at. absurd (no_block k.cache.sessions i j id b e at);
    alone =
        λ i j id i' j' id' g b b' at at' fr fr'. absurd (no_block k.cache.sessions i j id b e at);
    used = λ i j id g b at fr. absurd (no_block k.cache.sessions i j id b e at);
  }

  no_sessions-IsSettled : (k : Kv Pool) → k.cache.sessions ≡ [] → IsSettled k.cache.sessions
  no_sessions-IsSettled k e i s at =
      let none' : get_elem? k.cache.sessions i ≡ none =
        ap (λ (ts : List Session). get_elem? ts i) e in
      absurd (cc)

  -- After any calls to a cache without sessions, whatever was evicted and whatever the disk refused or
  -- did not answer: the identifier that is next, the sessions and the number of blocks of each are what
  -- the calls that worked make them. A read then never finds its block half written out; it fails only
  -- if there is no such block or the block is on the disk; and what it gives is, as far as the buffer
  -- and the block reach, the bytes that `append` writes to this block of a session of this identifier,
  -- the rest of the buffer being as it was.
  pub calls-read :
      (cs : List Call) (id index len : ℕ) (out : ℕ → ℕ) (k : Kv Pool)
      → k.cache.sessions ≡ []
      → (view (calls frames cs k).1.cache ≡ promised_all cs (calls frames cs k).0 (view k.cache))
        × IsAnswer
            (calls frames cs k).1.cache.sessions
            id
            index
            len
            out
            (read frames id index len out (calls frames cs k).1).0
  calls-read cs id index len out k none' =
      let later = (calls frames cs k).1 in
      (
        calls-refine frames cs k,
        to_answer later.cache.sessions id index len out _
            (read-IsFaithful frames laws id index len out later
              (calls-IsFaithful cs k (no_sessions-IsFaithful k none'))).1
            (read-IsSettled frames id index len out later
              (calls-IsSettled frames cs k (no_sessions-IsSettled k none'))).1
            (λ e b p. read-fails frames id index len out b later e p),
      )
