-- ===== src/Disk/Replies.antt =====
-- kernel/src/blk.rs: no reply is taken for another request's. The driver may answer as late as it likes,
-- again, or not at all; what it answers to a request is an argument, and its replies have the status
-- and the tag of the protocol in front.
use jungey_os.Prelude.{
  ℕ, ◌+◌, ◌^◌, ◌≤◌, ◌<◌, ◌≡◌, ◌⊎◌, inl, inr, refl, sym, ◌∙◌, ap, arith, false, Bool-cases, Option,
  Option-cases, none, some, List, [], ◌∷◌, ◌++◌, length, All, ltb, ◌==◌, ==_self, ==_iff, Result,
  err,
}
use jungey_os.Ipc.{Message, World, try_recv}
use jungey_os.Ipc.Fifo.{queued, try_recv_lem}
use jungey_os.Fs.Codec.{to_le_bytes}
use jungey_os.Fs.Layout.{from_le_bytes-to_le_bytes}
use jungey_os.Disk.Wire.{Client, Turn, reply_tag, judged, wait}

module _ (answer : (request : List ℕ) → ℕ × List ℕ) where
  unfoldable pub reply_to : (tag : ℕ) → (request : List ℕ) → List ℕ
  reply_to tag request = (answer request).0 ∷ to_le_bytes 4 tag ++ (answer request).1

  reply_tag-reply_to :
      (tag : ℕ) (request : List ℕ) → tag < 2 ^ 32 → reply_tag (reply_to tag request) ≡ tag
  unfolding reply_tag reply_to
  reply_tag-reply_to tag request small =
      let long : ltb (length (reply_to tag request)) 5 ≡ false = ground arith in
      rw long (from_le_bytes-to_le_bytes 4 tag (omega arith))

  -- The request that was sent under each tag.
  abbrev pub Issued : Type 0
  Issued = (tag : ℕ) → List ℕ

  abbrev pub IsReply : Issued → (bound : ℕ) → Message → Type 0
  IsReply log bound m = (t : ℕ) × (1 ≤ t) × (t < bound) × (m.bytes ≡ reply_to t (log t))

  -- What waits on the channel are replies to requests with tags below the bound.
  abbrev pub IsTidy : Issued → (bound channel : ℕ) → World → Type 0
  IsTidy log bound channel w =
      (q : List Message) → queued w channel ≡ some q → All (IsReply log bound) q

  abbrev pub IsDriven : Issued → (bound channel : ℕ) → List Turn → Type 0
  IsDriven log bound channel turns =
      All (λ turn. (w : World) → IsTidy log bound channel w → IsTidy log bound channel (turn.act w))
        turns

  -- A request that ends without an error of its own ends with its own reply.
  pub record IsAnswered (log : Issued) (bound tag : ℕ) (s : Client)
      (r : Option (Result (List ℕ)) × Client) : Type 0 where
    pub tidy : IsTidy log bound s.rep_channel r.1.world
    pub same_rep : r.1.rep_channel ≡ s.rep_channel
    pub same_req : r.1.req_channel ≡ s.req_channel
    pub same_tag : r.1.next_tag ≡ s.next_tag
    pub own :
        (r.0 ≡ none)
        ⊎ (r.0 ≡ some (err "block driver did not answer"))
        ⊎ (r.0 ≡ some (judged (reply_to tag (log tag))))

  module _ (log : Issued) (bound tag deadline : ℕ) (small : bound ≤ 2 ^ 32) where
    taken-IsTidy :
        (channel : ℕ) (w : World)
        → IsTidy log bound channel w
        → IsTidy log bound channel (try_recv w channel).1
    taken-IsTidy channel w tidy = elim (try_recv_lem w channel) [
      | inl (gone, e) ↦ rw e tidy
      | inr (inl (empty, e)) ↦ rw e tidy
      | inr (inr (m, rest, at, got, same, after)) ↦ λ q h.
          let now : queued (try_recv w channel).1 channel ≡ some rest =
            rw (==_self channel) at (after channel) in
          let e : rest ≡ q = cc in rw (← e) (tidy (m ∷ rest) at).1
    ]

    taken-IsReply :
        (channel : ℕ) (w : World) (m : Message)
        → IsTidy log bound channel w
        → (try_recv w channel).0 ≡ some m
        → IsReply log bound m
    taken-IsReply channel w m tidy h = elim (try_recv_lem w channel) [
      | inl (gone, e) ↦ let h' : none ≡ some m = rw e at h in cc
      | inr (inl (empty, e)) ↦ let h' : none ≡ some m = rw e at h in cc
      | inr (inr (m', rest, at, got, same, after)) ↦
          let e : m' ≡ m = cc in rw (← e) (tidy (m' ∷ rest) at).0
    ]

    pub wait-IsAnswered :
        (turns : List Turn) (s : Client)
        → IsTidy log bound s.rep_channel s.world
        → IsDriven log bound s.rep_channel turns
        → IsAnswered log bound tag s (wait turns tag deadline s)
    unfolding wait
    wait-IsAnswered [] s tidy driven = record {
      tidy = tidy;
      same_rep = refl;
      same_req = refl;
      same_tag = refl;
      own = inl refl;
    }
    wait-IsAnswered (turn ∷ turns) s tidy driven =
        let ch = s.rep_channel in
        let w = turn.act s.world in
        let w' = (try_recv w ch).1 in
        let tidy' : IsTidy log bound ch w' = taken-IsTidy ch w (driven.0 s.world tidy) in
        elim (Option-cases (try_recv w ch).0) [
          | inl e ↦ elim (Bool-cases (ltb deadline turn.now)) [
            | inl late ↦
                rw (e, late)
                  (record {
                    tidy = tidy';
                    same_rep = refl;
                    same_req = refl;
                    same_tag = refl;
                    own = inr (inl refl);
                  })
            | inr early ↦
                rw (e, early)
                  (let rest = wait-IsAnswered turns (record s { world = w' }) tidy' driven.1 in
                    record {
                      tidy = rest.tidy;
                      same_rep = rest.same_rep;
                      same_req = rest.same_req;
                      same_tag = rest.same_tag;
                      own = rest.own;
                    })
          ]
          | inr (m, e) ↦
              let (t, low, high, is) = taken-IsReply ch w m (driven.0 s.world tidy) e in
              let tagged : reply_tag m.bytes ≡ t =
                rw is (reply_tag-reply_to t (log t) (omega arith)) in
              elim (Bool-cases (reply_tag m.bytes == tag)) [
                | inl mine ↦
                    let same : t ≡ tag = sym tagged ∙ (==_iff (reply_tag m.bytes) tag).0 mine in
                    rw (e, mine)
                      (record {
                        tidy = tidy';
                        same_rep = refl;
                        same_req = refl;
                        same_tag = refl;
                        own = inr (
                            inr
                              (ap (λ b. some (judged b)) (is ∙ ap (λ u. reply_to u (log u)) same)));
                      })
                | inr other ↦
                    rw (e, other)
                      (let rest =
                          wait-IsAnswered turns (record s { world = w'; stale = s.stale + 1 }) tidy'
                            driven.1 in
                        record {
                          tidy = rest.tidy;
                          same_rep = rest.same_rep;
                          same_req = rest.same_req;
                          same_tag = rest.same_tag;
                          own = rest.own;
                        })
              ]
        ]
