-- ===== src/Disk/Own.antt =====
-- kernel/src/blk.rs: what a request to read brings back.
use jungey_os.Prelude.{
  false, ℕ, suc, ◌+◌, ◌^◌, ◌%◌, ◌≤◌, ◌<◌, ◌≡◌, ◌≢◌, inl, inr, refl, sym, ◌∙◌, ap, arith, Bool-cases,
  Option, none, some, List, length, All-imp, ltb, ◌==◌, ==_self, ==_ne, ==_iff, if◌then◌else◌,
  Result, ok, err, take, drop,
}
use jungey_os.Disk.{sector_size}
use jungey_os.Ipc.{Message, send}
use jungey_os.Ipc.Fifo.{queued, queued-send}
use jungey_os.Disk.Wire.{
  Client, Turn, op_read, nowhere, reply_timeout_ticks, header, judged, round_trip, next_tag,
  sector_in, read_sector,
}
use jungey_os.Disk.Replies.{Issued, reply_to, IsReply, IsTidy, IsDriven, wait-IsAnswered}

at_least : (a b : ℕ) → ltb a b ≡ false → b ≤ a
at_least a b h = ground arith

module _ (answer : (request : List ℕ) → ℕ × List ℕ) where
  -- The log with one more request.
  abbrev pub logged : Issued answer → (tag : ℕ) → (request : List ℕ) → Issued answer
  logged log tag request = λ t. if t == tag then request else log t

  -- Between requests: what waits are replies to requests that were sent.
  pub record IsReady (log : Issued answer) (s : Client) : Type 0 where
    pub some_tag : 1 ≤ s.next_tag
    pub tidy : IsTidy answer log s.next_tag s.rep_channel s.world
    pub apart : s.req_channel ≢ s.rep_channel

  logged-IsReply :
      (log : Issued answer) (tag : ℕ) (request : List ℕ) (m : Message)
      → IsReply answer log tag m
      → IsReply answer (logged log tag request) (tag + 1) m
  logged-IsReply log tag request m (t, low, high, is) =
      (t, low, omega arith, rw (==_ne t tag (λ e. omega arith)) is)

  judged-reply_to :
      (tag : ℕ) (request bytes : List ℕ)
      → judged (reply_to answer tag request) ≡ ok bytes
      → ((answer request).0 ≡ 0) × (bytes ≡ reply_to answer tag request)
  unfolding judged reply_to
  judged-reply_to tag request bytes h = elim (Bool-cases ((answer request).0 == 0)) [
    | inl e ↦
        let h' : ok (reply_to answer tag request) ≡ ok bytes = rw e at h in
        ((==_iff (answer request).0 0).0 e, cc)
    | inr e ↦ let h' : err "driver reported an error" ≡ ok bytes = rw e at h in cc
  ]

  record IsTripped (log : Issued answer) (bound : ℕ) (tag : ℕ) (request : List ℕ) (s : Client)
      (r : Option (Result (List ℕ)) × Client) : Type 0 where
    tidy : IsTidy answer log bound s.rep_channel r.1.world
    same_rep : r.1.rep_channel ≡ s.rep_channel
    same_req : r.1.req_channel ≡ s.req_channel
    same_tag : r.1.next_tag ≡ s.next_tag
    own :
        (bytes : List ℕ)
        → r.0 ≡ some (ok bytes)
        → ((answer request).0 ≡ 0) × (bytes ≡ reply_to answer tag request)

  round_trip-IsTripped :
      (log : Issued answer) (bound tag : ℕ) (request : List ℕ) (turns : List Turn) (now : ℕ)
      (s : Client)
      → bound ≤ 2 ^ 32
      → log tag ≡ request
      → s.req_channel ≢ s.rep_channel
      → IsTidy answer log bound s.rep_channel s.world
      → IsDriven answer log bound s.rep_channel turns
      → IsTripped log bound tag request s (round_trip request tag turns now s)
  unfolding round_trip
  round_trip-IsTripped log bound tag request turns now s small mine apart tidy driven =
      elim (Bool-cases (s.req_channel == nowhere)) [
        | inl off ↦ rw off (record {
          tidy = tidy;
          same_rep = refl;
          same_req = refl;
          same_tag = refl;
          own = λ bytes h. cc;
        })
        | inr on ↦ elim (queued-send s.world s.req_channel nowhere request s.rep_channel) [
          | inr (gone, e) ↦
              rw (on, e)
                (record {
                  tidy = tidy;
                  same_rep = refl;
                  same_req = refl;
                  same_tag = refl;
                  own = λ bytes h. cc;
                })
          | inl (q, at, e, after) ↦
              let w = (send s.world s.req_channel nowhere request).1 in
              let still : queued w s.rep_channel ≡ queued s.world s.rep_channel =
                rw (==_ne s.req_channel s.rep_channel apart) at after in
              let a =
                wait-IsAnswered answer log bound tag (now + reply_timeout_ticks) small turns
                  (record s { requests = s.requests + 1; world = w })
                  (λ q' h. tidy q' (sym still ∙ h)) driven in
              rw (on, e)
                (record {
                  tidy = a.tidy;
                  same_rep = a.same_rep;
                  same_req = a.same_req;
                  same_tag = a.same_tag;
                  own = λ bytes h. elim a.own [
                    | inl x ↦ cc
                    | inr (inl x) ↦ cc
                    | inr (inr x) ↦
                        let v : judged (reply_to answer tag (log tag)) ≡ ok bytes = cc in
                        judged-reply_to tag request bytes
                          (ap (λ u. judged (reply_to answer tag u)) (sym mine) ∙ v)
                  ];
                })
        ]
      ]

  -- What a request to read leads to: a client that is ready for the next one, and what the driver
  -- answered to this one if it succeeds.
  pub record IsRead (log : Issued answer) (sector : ℕ) (s : Client)
      (r : Option (Result (List ℕ)) × Client) : Type 0 where
    pub ready : IsReady (logged log s.next_tag (header op_read s.next_tag sector)) r.1
    pub own :
        (bytes : List ℕ)
        → r.0 ≡ some (ok bytes)
        → ((answer (header op_read s.next_tag sector)).0 ≡ 0)
          × (sector_size ≤ length (answer (header op_read s.next_tag sector)).1)
          × (bytes ≡ take sector_size (answer (header op_read s.next_tag sector)).1)

  sector_in-own :
      (tag : ℕ) (request : List ℕ) (r : Option (Result (List ℕ)) × Client)
      → ((bytes : List ℕ)
          → r.0 ≡ some (ok bytes)
          → ((answer request).0 ≡ 0) × (bytes ≡ reply_to answer tag request))
      → (bytes : List ℕ) → (sector_in r).0 ≡ some (ok bytes)
      → ((answer request).0 ≡ 0)
        × (sector_size ≤ length (answer request).1)
        × (bytes ≡ take sector_size (answer request).1)
  unfolding reply_to
  sector_in-own tag request (none, s) own bytes h = cc
  sector_in-own tag request (some (err e), s) own bytes h = cc
  sector_in-own tag request (some (ok got), s) own bytes h =
      let (status, same) = own got refl in
      elim (Bool-cases (ltb (length got) 517)) [
        | inl short ↦ let h' : some (err "short read reply") ≡ some (ok bytes) = rw short at h in cc
        | inr long ↦
            let h' : some (ok (take 512 (drop 5 got))) ≡ some (ok bytes) = rw long at h in
            let size : length got ≡ suc (suc (suc (suc (suc (length (answer request).1))))) =
              ap length same in
            let part : take 512 (drop 5 got) ≡ take 512 (answer request).1 =
              ap (λ l. take 512 (drop 5 l)) same in
            (status, omega (arith, at_least (length got) 517 long), cc)
      ]

  sector_in-client : (r : Option (Result (List ℕ)) × Client) → (sector_in r).1 ≡ r.1
  sector_in-client (none, s) = refl
  sector_in-client (some (err e), s) = refl
  sector_in-client (some (ok got), s) = elim (Bool-cases (ltb (length got) 517)) [
    | inl short ↦ rw short refl
    | inr long ↦ rw long refl
  ]

  -- A request to read never takes the reply to another request for its own, however late the driver
  -- answered those and however often: if it succeeds, the driver has served this very request, and the
  -- 512 bytes are the first of its answer. In every case, a timeout too, the client is as ready for the
  -- next request as it was for this one. This is so while the tags have not come round, and when nothing
  -- but the driver's replies to requests that were sent comes to the reply channel, which is not the
  -- one that the requests go to.
  pub read_sector-IsRead :
      (sector : ℕ) (turns : List Turn) (now : ℕ) (s : Client) (log : Issued answer)
      → s.next_tag + 1 < 2 ^ 32
      → IsReady log s
      → IsDriven answer
          (logged log s.next_tag (header op_read s.next_tag sector))
          (s.next_tag + 1)
          s.rep_channel
          turns
      → IsRead log sector s (read_sector sector sector_size turns now s)
  unfolding read_sector next_tag
  read_sector-IsRead sector turns now s log small ready driven =
      let tag = s.next_tag in
      let request = header op_read tag sector in
      let asking : Client = record s { next_tag = (tag + 1) % 2 ^ 32 } in
      let got = round_trip request tag turns now asking in
      let t =
        round_trip-IsTripped (logged log tag request) (tag + 1) tag request turns now asking
          (omega arith) (rw (==_self tag) refl) ready.apart
          (λ q h.
            All-imp (IsReply answer log tag) q (logged-IsReply log tag request) (ready.tidy q h))
          driven in
      let counted : got.1.next_tag ≡ tag + 1 = omega (arith, t.same_tag) in
      record {
        ready = rw (sector_in-client got) (record {
          some_tag = omega arith;
          tidy = rw (counted, t.same_rep) t.tidy;
          apart = rw (t.same_req, t.same_rep) ready.apart;
        });
        own = sector_in-own tag request got t.own;
      }
