-- ===== src/Net/MsgQueue/Order.antt =====
-- No thread that gets behind the semaphore finds the list of messages empty.
use mathlib.Core.List.{append_assoc}
use eparallel.Common.{
  ℕ, ◌+◌, ◌-◌, ◌<◌, ◌≤◌, ◌≡◌, refl, sym, ap, ◌∙◌, true, some, List, [], ◌∷◌, ◌++◌, ltb, pos, arith,
  length, length-append, Bool-cases, inl, inr, ◌⊎◌, dec_eq,
}
use eparallel.Errno.{fail}
use eparallel.TaskQueue.{sem_value_max}
use eparallel.Net.MsgQueue.{
  MsgQueue, push_locked, push_gives, get_takes, get_locked, System, Step, pushes, refused, gives,
  takes, gets, Reach, here, next, start,
}

module _ {M : Type 0} (maxsz : ℕ) where
  record Inv (s : System M) : Type 0 where
    pub limit : s.queue.m_max_size ≡ maxsz
    pub sized : length s.queue.m_msglist ≡ s.queue.m_size
    pub bounded : s.queue.m_size ≤ maxsz + 1
    pub counted : s.queue.m_semp + s.giving + s.getting ≡ s.queue.m_size
    pub ordered : s.got ++ s.queue.m_msglist ≡ s.pushed

  pushes-Inv :
      (s : System M) (msg : M) (q : MsgQueue M)
      → push_locked s.queue msg ≡ (pos 0, q)
      → Inv s
      → Inv (record s { queue = q; giving = s.giving + 1; pushed = s.pushed ++ (msg ∷ []) })
  unfolding push_locked
  pushes-Inv s msg q e v = elim (Bool-cases (ltb s.queue.m_max_size s.queue.m_size)) [
    | inl full ↦ absurd (ground (arith, rw full at e))
    | inr room ↦
        let f = ap (λ r. r.1) (rw room at e) in
        rw (sym f) (record {
          limit = v.limit;
          sized = omega (arith, length-append s.queue.m_msglist (msg ∷ []), v.sized);
          bounded = ground (arith, room, v.limit);
          counted = omega (arith, v.counted);
          ordered =
              sym (append_assoc s.got s.queue.m_msglist (msg ∷ []))
              ∙ ap (λ t. t ++ (msg ∷ [])) v.ordered;
        })
  ]

  refused-Same :
      (s : System M) (msg : M) (q : MsgQueue M) → push_locked s.queue msg ≡ (fail, q) → s.queue ≡ q
  unfolding push_locked
  refused-Same s msg q e = elim (Bool-cases (ltb s.queue.m_max_size s.queue.m_size)) [
    | inl full ↦ ap (λ r. r.1) (rw full at e)
    | inr room ↦ absurd (ground (arith, rw room at e))
  ]

  gives-Inv :
      (s : System M)
      → maxsz < sem_value_max
      → 0 < s.giving
      → Inv s
      → Inv (record s { queue = (push_gives s.queue).1; giving = s.giving - 1 })
  unfolding push_gives
  gives-Inv s small h v =
      let room : ltb s.queue.m_semp sem_value_max ≡ true =
        ground (arith, v.bounded, v.counted, small, h) in
      rw room (record {
        limit = v.limit;
        sized = v.sized;
        bounded = v.bounded;
        counted = omega (arith, v.counted, h);
        ordered = v.ordered;
      })

  takes-Inv :
      (s : System M) (q : MsgQueue M)
      → get_takes s.queue ≡ some q
      → Inv s
      → Inv (record s { queue = q; getting = s.getting + 1 })
  unfolding get_takes
  takes-Inv s q e v = elim (Bool-cases (ltb 0 s.queue.m_semp)) [
    | inr waits ↦ absurd (ground (arith, rw waits at e))
    | inl some_count ↦
        let f : record s.queue { m_semp = s.queue.m_semp - 1 } ≡ q =
          ground (arith, rw some_count at e) in
        rw (sym f) (record {
          limit = v.limit;
          sized = v.sized;
          bounded = v.bounded;
          counted = ground (arith, some_count, v.counted);
          ordered = v.ordered;
        })
  ]

  -- With what is in the list.
  got-Inv :
      (s : System M) (xs : List M) (msg : M) (q : MsgQueue M)
      → s.queue.m_msglist ≡ xs
      → get_locked s.queue ≡ some (msg, q)
      → 0 < s.getting
      → Inv s
      → Inv (record s { queue = q; getting = s.getting - 1; got = s.got ++ (msg ∷ []) })
  unfolding get_locked
  got-Inv s [] msg q x e h v = absurd (ground (arith, rw (x, get_locked) at e))
  got-Inv s (m ∷ xs) msg q x e h v =
      let some_size : ltb 0 s.queue.m_size ≡ true = ground (arith, v.counted, h) in
      let e' = rw (some_size, get_locked) at (rw (x, get_locked) at e) in
      let fm : m ≡ msg = ground (arith, e') in
      let fq : record s.queue { m_msglist = xs; m_size = s.queue.m_size - 1 } ≡ q =
        ground (arith, e') in
      let len = ap length x in
      rw (sym fq, sym fm)
        (record {
          limit = v.limit;
          sized = omega (arith, len, v.sized);
          bounded = omega (arith, v.bounded);
          counted = omega (arith, v.counted, h);
          ordered = append_assoc s.got (m ∷ []) xs ∙ ap (λ t. s.got ++ t) (sym x) ∙ v.ordered;
        })

  Step-Inv : {s u : System M} → maxsz < sem_value_max → Inv s → Step s u → Inv u
  Step-Inv {s = s} small v (pushes msg q e f) = rw f (pushes-Inv s msg q e v)
  Step-Inv {s = s} small v (refused msg q e f) = rw f (rw (sym (refused-Same s msg q e)) v)
  Step-Inv {s = s} small v (gives h f) = rw f (gives-Inv s small h v)
  Step-Inv {s = s} small v (takes q e f) = rw f (takes-Inv s q e v)
  Step-Inv {s = s} small v (gets msg q h e f) = rw f (got-Inv s s.queue.m_msglist msg q refl e h v)

  Reach-Inv : {s u : System M} → maxsz < sem_value_max → Inv s → Reach s u → Inv u
  Reach-Inv small v here = v
  Reach-Inv small v (next r e) = Step-Inv small (Reach-Inv small v r) e

  start-Inv : Inv (start maxsz)
  start-Inv = record {
    limit = refl;
    sized = refl;
    bounded = omega arith;
    counted = refl;
    ordered = refl;
  }

  locked-Some :
      (s : System M) (xs : List M)
      → s.queue.m_msglist ≡ xs
      → Inv s
      → 0 < s.getting
      → (msg : M) × (q : MsgQueue M) × (get_locked s.queue ≡ some (msg, q))
  unfolding get_locked
  locked-Some s [] x v h =
      let len = ap length x in absurd (omega (arith, len, v.sized, v.counted, h))
  locked-Some s (m ∷ xs) x v h =
      let some_size : ltb 0 s.queue.m_size ≡ true = ground (arith, v.counted, h) in
      (
        m,
        record s.queue { m_msglist = xs; m_size = s.queue.m_size - 1 },
        rw (x, get_locked) (rw (some_size, get_locked) refl),
      )

-- However threads push and get, on a new queue whose limit is below the largest count of a
-- semaphore: what has been got and then what is in the list is what has been pushed, in order;
-- the list never has more than one message above the limit; the call of the semaphore in push_msg
-- never fails; and in get_msg a thread that has passed the semaphore finds a message.
pub msg_queue_order :
    {M : Type 0} (maxsz : ℕ) (s : System M)
    → maxsz < sem_value_max
    → Reach (start maxsz) s
    → (s.got ++ s.queue.m_msglist ≡ s.pushed)
      × (length s.queue.m_msglist ≤ maxsz + 1)
      × ((s.giving ≡ 0) ⊎ ((push_gives s.queue).0 ≡ pos 0))
      × ((s.getting ≡ 0) ⊎ ((msg : M) × (q : MsgQueue M) × (get_locked s.queue ≡ some (msg, q))))
unfolding push_gives
msg_queue_order maxsz s small r =
    let v = Reach-Inv maxsz small (start-Inv maxsz) r in
    (
      v.ordered,
      omega (arith, v.sized, v.bounded),
      elim (dec_eq s.giving 0) [
        | inl z ↦ inl z
        | inr nz ↦
            let room : ltb s.queue.m_semp sem_value_max ≡ true =
              ground (arith, v.bounded, v.counted, small, nz) in
            inr (rw room refl)
      ],
      elim (dec_eq s.getting 0) [
        | inl z ↦ inl z
        | inr nz ↦ inr (locked-Some maxsz s s.queue.m_msglist refl v (omega (arith, nz)))
      ],
    )
