-- ===== src/Handlers/Storing.antt =====
-- For tests: the sample world stores and finds packets as QoS 2 wants it.
use aedes.Common.{
  ◌≤◌, ◌<◌, ℕ, ◌≡◌, ◌≢◌, refl, ap, sym, true, false, [], ◌∷◌, Option, some, Text, codes, arith,
  Bool-cases, inl, inr,
}
use aedes.Errors.{Error, external}
use aedes.Run.{done, fail, silent}
use aedes.Packet.{Packet}
use aedes.World.Ends.{Speaks}
use aedes.Delivery.{KeepsIncoming, Serves}
use aedes.Sample.{Store, has, drop_id, get_incoming, sample_host}

abbrev pub IsStored : Option Text → Option ℕ → Store → Type 0
IsStored id m o = has m o ≡ true

get_found :
    (p : Packet) (o : Store) (e : Error) → has p.message_id o ≡ true → get_incoming p o ≢ fail e
get_found p o e h = ground arith

done_inj : {p q : Packet} → done p ≡ done q → p ≡ q
done_inj e = cc

still_there : (m n : Option ℕ) (o : Store) → has m o ≡ true → has m (n ∷ o) ≡ true
still_there m n o st = ground arith

pub sample_keeps : KeepsIncoming sample_host IsStored (some (codes "c")) (some 5)
sample_keeps = record {
  finds = λ p o same st e. get_found p o e (rw same st);
  stores = λ p o same e. rw same (ground arith);
  authorizes = λ c p q o e.
      let same : p ≡ q = done_inj e in
      (ap (λ r. r.qos) (sym same), ap (λ r. r.message_id) (sym same));
  keep_meanwhile = λ w st. st;
  keep_write = λ c p o st. st;
  keep_drained = λ c o st. st;
  keep_authorize = λ c p o st. st;
  keep_published = λ p o st. st;
  keep_get = λ p o st. st;
  keep_store = λ p o st. still_there (some 5) p.message_id o st;
  keep_retained = λ p o st. st;
  keep_by_topic = λ t o st. st;
  keep_enqueue = λ ts p o st. st;
  keep_emit = λ p o st. st;
}

get_missed :
    (p : Packet) (o : Store)
    → (¬ (has p.message_id o ≡ true))
    → (e : Error) × (get_incoming p o ≡ fail e)
get_missed p o free = elim (Bool-cases (has p.message_id o)) [
  | inl there ↦ absurd (free there)
  | inr missed ↦ (external 0, rw missed refl)
]

get_given :
    (p : Packet) (o : Store)
    → has p.message_id o ≡ true
    → (q : Packet) × (get_incoming p o ≡ done (some q))
get_given p o there = (p, rw there refl)

pub never_silent : (p : Packet) (o : Store) → get_incoming p o ≢ silent
never_silent p o = ground arith

drop_id-has : (m : Option ℕ) (o : Store) → has m (drop_id m o) ≡ false
drop_id-has m [] = refl
drop_id-has m (n ∷ o) = ground (arith, drop_id-has m o)

pub sample-Serves : Serves sample_host IsStored (some (codes "c")) (some 5)
sample-Serves = record {
  gives = λ p o same st. get_given p o (rw same st);
  misses = λ p o same free. get_missed p o (rw same free);
  answers_get = never_silent;
  takes = λ p o same. refl;
  deletes = λ p o same st. cc (drop_id-has (some 5) o, same);
  answers_del = λ p o e. cc;
  lets = λ c p o. (p, refl, refl);
  retains = λ p o. refl;
  lists = λ t o. ([], refl);
  enqueues = λ ts p o. refl;
  new_meanwhile = λ w st. st;
  new_write = λ c p o st. st;
  new_drained = λ c o st. st;
  new_authorize = λ c p o st. st;
  new_get = λ p o st. st;
  same_limit = λ w. refl;
}

qos_kept : (p q : Packet) → p ≡ q → p.qos ≤ 2 → 2 < q.qos → ⊥
qos_kept p q same low high = let e : p.qos ≡ q.qos = ap (λ x. x.qos) same in omega arith

pub sample-Speaks : Speaks sample_host ⊥
sample-Speaks = record {
  drained = λ c o e. cc;
  authorize_publish = λ c p o e. cc;
  authorize_qos = λ c p q o e low high. let same : p ≡ q = done_inj e in qos_kept p q same low high;
  authorize_subscribe = λ c s o e. cc;
  published = λ p o e. cc;
  incoming_get = λ id p o e. never_silent p o e;
  incoming_store = λ id p o e. cc;
  incoming_del = λ id p o e. cc;
  outgoing_update = λ id p o e. cc;
  outgoing_clear = λ id p o e. cc;
  store_retained = λ p o e. cc;
  by_topic = λ t o e. cc;
  by_topic_lists = λ t x o e. cc;
  enqueue_combi = λ ts p o e. cc;
  add_subscriptions = λ id subs o e. cc;
  remove_subscriptions = λ id ts o e. cc;
  mq_emit = λ p o e. cc;
  mq_on = λ c t f o e. cc;
  mq_remove = λ c t f o e. cc;
}
