-- ===== src/Pool/Async/Tasks/Moves.antt =====
-- How a call of the asynchronous pool ends, and how its queues are closed.
use dlstorage.Base.{
  ℕ, suc, ◌-◌, ◌<◌, leb, ◌==◌, pos, false, Option, none, some, List, [], ◌∷◌, length, ◌≡◌, refl, ap,
  arith, Bool-cases, inl, inr,
}
use mathlib.Core.Path.{subst}
use dlstorage.Mux.{pluck}
use dlstorage.Mux.Counts.{one, count, weigh-pluck}
use dlstorage.Pool.Async.Tasks.{
  Tasks, is_open, fill, close, respond_lent, respond, fail_lent, fail, cancel_lent, cancel,
  close_each, close_queue,
}
use dlstorage.Pool.Async.Tasks.Queues.{count-remove, OutIsKnown, pluck-OutIsKnown}
use dlstorage.Pool.Async.Tasks.Places.{IsTidy, in_queues-fill, short-fill, placed_if}

-- A call gives its connection up, which is closed or was closed already.
without : ℕ → List (ℕ × ℕ) → Tasks → Tasks
without conn rest s = close conn (record s { lent = rest })

without-IsTidy :
    (n conn q : ℕ) (rest : List (ℕ × ℕ)) (s : Tasks)
    → pluck conn s.lent ≡ some (q, rest)
    → IsTidy n s
    → IsTidy n (without conn rest s)
unfolding without
without-IsTidy n conn q rest s e t =
    let (known, others) =
      subst (OutIsKnown s.next) e (pluck-OutIsKnown s.next conn s.lent t.lent_known) in
    record {
      placed = λ k. omega (
        arith,
        t.placed k,
        count-remove k conn s.opened,
        weigh-pluck (λ c x. one k c) conn s.lent q rest e,
      );
      once = λ k. omega (arith, t.once k, weigh-pluck (λ c x. one k c) conn s.lent q rest e);
      short = t.short;
      lent_known = others;
      queues_known = t.queues_known;
    }

pub fail-IsTidy : (n conn : ℕ) (s : Tasks) → IsTidy n s → IsTidy n (fail conn s)
unfolding fail fail_lent without
fail-IsTidy n conn s t = go (pluck conn s.lent) refl
  where
    go : (o : Option (ℕ × List (ℕ × ℕ))) → pluck conn s.lent ≡ o → IsTidy n (fail_lent conn o s)
    go none e = t
    go (some (q, rest)) e = without-IsTidy n conn q rest s e t

pub cancel-IsTidy : (n conn : ℕ) (s : Tasks) → IsTidy n s → IsTidy n (cancel conn s)
unfolding cancel cancel_lent
cancel-IsTidy n conn s t = go (pluck conn s.lent) refl
  where
    go : (o : Option (ℕ × List (ℕ × ℕ))) → pluck conn s.lent ≡ o → IsTidy n (cancel_lent conn o s)
    go none e = t
    go (some (q, rest)) e =
        let (known, others) =
          subst (OutIsKnown s.next) e (pluck-OutIsKnown s.next conn s.lent t.lent_known) in
        record {
          placed =
              λ k. omega (arith, t.placed k, weigh-pluck (λ c x. one k c) conn s.lent q rest e);
          once = λ k. omega (arith, t.once k, weigh-pluck (λ c x. one k c) conn s.lent q rest e);
          short = t.short;
          lent_known = others;
          queues_known = t.queues_known;
        }

pub close-IsTidy : (n conn : ℕ) (s : Tasks) → IsTidy n s → IsTidy n (close conn s)
close-IsTidy n conn s t = record {
  placed = λ k. omega (arith, t.placed k, count-remove k conn s.opened);
  once = t.once;
  short = t.short;
  lent_known = t.lent_known;
  queues_known = t.queues_known;
}

pub respond-IsTidy :
    (n conn : ℕ) (s : Tasks) → IsTidy (suc n) s → IsTidy (suc n) (respond (pos (suc n)) conn s)
unfolding respond respond_lent without
respond-IsTidy n conn s t = go (pluck conn s.lent) refl
  where
    elsewhere : is_open conn s ≡ false → (k : ℕ) → 0 < count k s.opened → one k conn ≡ 0
    elsewhere gone k still = elim (Bool-cases (conn == k)) [
      | inl same ↦
          let conn_k : conn ≡ k = ground (arith, same) in
          let both : count conn s.opened ≡ count k s.opened = ap (λ x. count x s.opened) conn_k in
          absurd (ground (arith, gone, both, still))
      | inr other ↦ rw other refl
    ]

    go :
        (o : Option (ℕ × List (ℕ × ℕ)))
        → pluck conn s.lent ≡ o
        → IsTidy (suc n) (respond_lent (pos (suc n)) conn o s)
    go none e = t
    go (some (q, rest)) e =
        let (known, others) =
          subst (OutIsKnown s.next) e (pluck-OutIsKnown s.next conn s.lent t.lent_known) in
        elim (Bool-cases (is_open conn s)) [
          | inl there ↦ elim (Bool-cases (leb (suc n) (length (s.content q)))) [
            | inl full ↦ rw (there, full) (without-IsTidy (suc n) conn q rest s e t)
            | inr free ↦
                rw (there, free)
                  (record {
                    placed = λ k. omega (
                      arith,
                      t.placed k,
                      weigh-pluck (λ c x. one k c) conn s.lent q rest e,
                      in_queues-fill k q (conn ∷ s.content q) (record s { lent = rest }) known,
                    );
                    once = λ k. omega (
                      arith,
                      t.once k,
                      weigh-pluck (λ c x. one k c) conn s.lent q rest e,
                      in_queues-fill k q (conn ∷ s.content q) (record s { lent = rest }) known,
                    );
                    short =
                        short-fill (suc n) q (conn ∷ s.content q) s (ground (arith, free)) t.short;
                    lent_known = others;
                    queues_known = t.queues_known;
                  })
          ]
          | inr gone ↦ rw gone (record {
            placed = λ k. placed_if _ _ (λ still. omega (
              arith,
              t.placed k,
              weigh-pluck (λ c x. one k c) conn s.lent q rest e,
              elsewhere gone k still,
            ));
            once = λ k. omega (arith, t.once k, weigh-pluck (λ c x. one k c) conn s.lent q rest e);
            short = t.short;
            lent_known = others;
            queues_known = t.queues_known;
          })
        ]

opened-close_each :
    (k : ℕ) (l : List ℕ) (s : Tasks)
    → count k (close_each l s).opened ≡ count k s.opened - count k l
unfolding close_each
opened-close_each k [] s = omega arith
opened-close_each k (conn ∷ l) s =
    omega (arith, opened-close_each k l (close conn s), count-remove k conn s.opened)

pub same-close_each :
    (l : List ℕ) (s : Tasks) → close_each l s ≡ record s { opened = (close_each l s).opened }
unfolding close_each
same-close_each [] s = refl
same-close_each (conn ∷ l) s = same-close_each l (close conn s)

pub close_queue-IsTidy :
    (n q : ℕ) (s : Tasks) → q < s.next → IsTidy n s → IsTidy n (close_queue q s)
close_queue-IsTidy n q s known t = rw (same-close_each (s.content q) (fill q [] s)) (record {
  placed = λ k. omega (
    arith,
    t.placed k,
    opened-close_each k (s.content q) (fill q [] s),
    in_queues-fill k q [] s known,
  );
  once = λ k. omega (arith, t.once k, in_queues-fill k q [] s known);
  short = short-fill n q [] s (omega arith) t.short;
  lent_known = t.lent_known;
  queues_known = t.queues_known;
})
