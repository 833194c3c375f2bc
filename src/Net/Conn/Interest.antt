-- ===== src/Net/Conn/Interest.antt =====
-- What epoll watches a connection for.
use eparallel.Common.{
  ℕ, zero, suc, ◌<◌, ◌≡◌, refl, true, ◌||◌, Option, none, some, if◌then◌else◌, pos, arith,
  Bool-cases, inl, inr,
}
use eparallel.Net.Conn.{
  Os, Conn, ctl_add, ctl_mod, ctl_del, add_read, add_write, epollin, epollout, has_bit, events,
  thread_notify, set_notify,
}

module _ {K : Type 0} (os : Os K) (interest : K → Option ℕ) where
  -- `interest k` are the events that epoll watches the socket for: a socket that it does not
  -- watch can be added, and one that it watches can be changed and taken off, but not added.
  pub record Epoll : Type 0 where
    pub added :
        (k : K) (ev : ℕ) → interest k ≡ none → interest (os.epoll_ctl ctl_add ev k).1 ≡ some ev
    pub refused :
        (k : K) (ev old : ℕ)
        → interest k ≡ some old
        → interest (os.epoll_ctl ctl_add ev k).1 ≡ some old
    pub changed :
        (k : K) (ev old : ℕ)
        → interest k ≡ some old
        → interest (os.epoll_ctl ctl_mod ev k).1 ≡ some ev
    pub removed :
        (k : K) (ev old : ℕ) → interest k ≡ some old → interest (os.epoll_ctl ctl_del ev k).1 ≡ none

module _ {K : Type 0} (os : Os K) where
  thread_notify-zero : (k : K) (old noti : ℕ) → (thread_notify os k old noti).0 ≡ pos 0
  unfolding thread_notify
  thread_notify-zero k old noti =
      elim (Bool-cases (has_bit add_read noti || has_bit add_write noti)) [
        | inl n ↦ rw (thread_notify, n) refl
        | inr n ↦ rw (thread_notify, n) refl
      ]

-- What a notification asks for.
abbrev pub wanted : ℕ → Option ℕ
wanted noti = if has_bit add_read noti || has_bit add_write noti then some (events noti) else none

-- What comes of it: nothing, where the notification before was to write only.
abbrev pub outcome : ℕ → ℕ → Option ℕ
outcome old noti =
    if has_bit add_write old
    then (if has_bit add_read old then wanted noti else wanted old)
    else wanted noti

module _ {K : Type 0} (os : Os K) (interest : K → Option ℕ) (law : Epoll os interest) where
  -- The socket is watched, and the thread knows it.
  known :
      (k : K) (old ev noti : ℕ)
      → (has_bit epollin old || has_bit epollout old) ≡ true
      → interest k ≡ some ev
      → interest (thread_notify os k old noti).1 ≡ wanted noti
  unfolding thread_notify
  known k old ev noti w e = elim (Bool-cases (has_bit add_read noti || has_bit add_write noti)) [
    | inl n ↦ rw (thread_notify, w, n) (law.changed k (events noti) ev e)
    | inr n ↦ rw (thread_notify, w, n) (law.removed k 0 ev e)
  ]

  thread_notify-Interest :
      (k : K) (old noti : ℕ)
      → old < 4
      → interest k ≡ wanted old
      → interest (thread_notify os k old noti).1 ≡ outcome old noti
  unfolding thread_notify
  thread_notify-Interest k zero noti l e =
      elim (Bool-cases (has_bit add_read noti || has_bit add_write noti)) [
        | inl n ↦ rw (thread_notify, n) (law.added k (events noti) e)
        | inr n ↦ rw (thread_notify, n) e
      ]
  thread_notify-Interest k (suc zero) noti l e = known k 1 _ noti refl e
  thread_notify-Interest k (suc (suc zero)) noti l e =
      elim (Bool-cases (has_bit add_read noti || has_bit add_write noti)) [
        | inl n ↦ rw (thread_notify, n) (law.refused k (events noti) _ e)
        | inr n ↦ rw (thread_notify, n) e
      ]
  thread_notify-Interest k (suc (suc (suc zero))) noti l e = known k 3 _ noti refl e
  thread_notify-Interest k (suc (suc (suc (suc old)))) noti l e = absurd (omega (arith, l))

-- Where epoll watches a socket for what its connection, which has a thread, was last notified of,
-- `set_notify` succeeds and keeps the new notification, but epoll then watches for it only if the
-- last notification was not to write alone; after one to write alone, epoll goes on to watch for
-- writing, whatever the new notification is, and also when it is for nothing.
pub set_notify-Interest :
    {K : Type 0} (os : Os K) (interest : K → Option ℕ) (law : Epoll os interest) (k : K) (c : Conn)
    (noti : ℕ)
    → c.has_thread ≡ true
    → c.noti < 4
    → interest k ≡ wanted c.noti
    → ((set_notify os k c noti).0 ≡ pos 0)
      × ((set_notify os k c noti).1 ≡ record c { noti = noti })
      × (interest (set_notify os k c noti).2 ≡ outcome c.noti noti)
unfolding set_notify
set_notify-Interest os interest law k c noti h l e =
    let i = thread_notify-Interest os interest law k c.noti noti l e in
    let z = thread_notify-zero os k c.noti noti in
    (simp (set_notify, h, z), simp (set_notify, h, z), rw (set_notify, h, z) i)
