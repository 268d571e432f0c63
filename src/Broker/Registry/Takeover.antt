-- ===== src/Broker/Registry/Takeover.antt =====
-- A client that registers under an id which another client holds: `registerClient` and `close`.
use aedes.Common.{
  ℕ, ◌==◌, ◌≡◌, refl, ap, ◌∙◌, true, false, none, some, Text, text_eq_refl, if◌then◌else◌,
}
use aedes.Dict.{absent, get, put, slot}
use aedes.Dict.Laws.{get-put, slot-own}
use aedes.World.{World, Host}
use aedes.World.Heap.{update_self, update_other}
use aedes.World.Steps.{set_client}
use aedes.Session.Drain.{flush_drains}
use aedes.Broker.Publishing.Still.{IsStill}
use aedes.Broker.Registry.{
  key_of, goes_on, finish_register_client, close_done, begin_close, close, finish_close,
  register_slot, register_client,
}
use aedes.Broker.Registry.Finishing.{
  finish_register_client-Holds, finish_close-registered, finish_close-unregistered,
}

-- A client that registers while another holds its id comes to have the id: `registerClient` closes
-- the other, and the other's `close` registers it when it ends.
pub record TakesOver {O : Type 0} (h : Host O) (id : Text) (old new : ℕ) (w : World O)
    : Type 0 where
  pub between : World O
  pub registering : register_client h new w ≡ goes_on between
  pub closes : (between.clients old).closed ≡ true
  pub holds : get id (finish_close h old between).broker.clients ≡ some new

-- A client that registers while the holder of its id is being closed has the id at once, and loses
-- it when the `close` of the other ends.
pub record LosesId {O : Type 0} (h : Host O) (id : Text) (old new : ℕ) (w : World O) : Type 0 where
  pub between : World O
  pub registering : register_client h new w ≡ goes_on between
  pub objects : between.clients ≡ w.clients
  pub holds : get id between.broker.clients ≡ some new
  pub loses : get id (finish_close h old between).broker.clients ≡ none

module _ {O : Type 0} (h : Host O) where
  register_client-own :
      (old new : ℕ) (id : Text) (w : World O)
      → (w.clients new).id ≡ some id
      → get id w.broker.clients ≡ some old
      → register_client h new w ≡ goes_on (close h old (some new) w)
  unfolding register_client register_slot
  register_client-own old new id w named found =
      ap (λ k. register_slot h new (slot (key_of k) w.broker.clients) w) named
      ∙ ap (λ x. register_slot h new x w) (slot-own id old w.broker.clients found)

  -- If no other task changes the registry or a Client object meanwhile and an open, authorized client
  -- holds the id of another client that registers, then the holder is closed, and once its `close`
  -- has ended, its will if any published or not, the new client is the one registered under the id.
  pub register_client-TakesOver :
      (still : IsStill h) (old new : ℕ) (id : Text) (w : World O)
      → (new == old) ≡ false
      → (w.clients new).id ≡ some id
      → get id w.broker.clients ≡ some old
      → (w.clients old).id ≡ some id
      → (w.clients old).authorized ≡ true
      → (w.clients old).closed ≡ false
      → TakesOver h id old new w
  unfolding close begin_close flush_drains
  register_client-TakesOver still old new id w other named found named_old authorized open' =
      let client = begin_close (w.clients old) (some new) in
      let w' = set_client old client w in
      let self = update_self w.clients old client in
      record {
        between = w';
        registering =
            register_client-own old new id w named found
            ∙ ap (λ b. goes_on (if b then close_done h (some new) w else w')) open';
        closes = ap (λ v. v.closed) self;
        holds =
            finish_close-registered h still old old new id w' (ap (λ v. v.closing) self)
              (ap (λ v. v.authorized) self ∙ authorized) (ap (λ v. v.id) self ∙ named_old) found
              other (ap (λ v. v.id) (update_other w.clients old client new other) ∙ named);
      }

  -- If no other task changes the registry or a Client object meanwhile and the authorized client that
  -- holds the id of a client that registers is closed, but its `close`, which was called without a
  -- callback, has not ended, then the new client is registered at once and no Client object changes;
  -- once that `close` has ended no client is registered under the id.
  pub register_client-LosesId :
      (still : IsStill h) (old new : ℕ) (id : Text) (w : World O)
      → (w.clients new).id ≡ some id
      → get id w.broker.clients ≡ some old
      → (w.clients old).id ≡ some id
      → (w.clients old).authorized ≡ true
      → (w.clients old).closed ≡ true
      → (w.clients old).closing ≡ some none
      → LosesId h id old new w
  unfolding close close_done
  register_client-LosesId still old new id w named found named_old authorized shut closing =
      let w' = finish_register_client h new w in
      let made = finish_register_client-Holds h still new w in
      let at_old = ap (λ heap. heap old) made.objects in
      let now_new : get id w'.broker.clients ≡ some new =
        ap (get id) made.registered
        ∙ ap (λ k. get id (put (key_of k) new w.broker.clients)) named
        ∙ get-put id id new w.broker.clients
        ∙ rw (text_eq_refl) refl in
      record {
        between = w';
        registering =
            register_client-own old new id w named found
            ∙ ap
                (λ b.
                  goes_on
                    (if b then w' else set_client old (begin_close (w.clients old) (some new)) w))
                shut;
        objects = made.objects;
        holds = now_new;
        loses =
            finish_close-unregistered h still old new id w' (ap (λ v. v.closing) at_old ∙ closing)
              (ap (λ v. v.authorized) at_old ∙ authorized) (ap (λ v. v.id) at_old ∙ named_old)
              now_new;
      }

  -- A client whose id is free is registered at once, and no Client object changes.
  pub register_client-absent :
      (still : IsStill h) (c : ℕ) (id : Text) (w : World O)
      → (w.clients c).id ≡ some id
      → slot id w.broker.clients ≡ absent
      → (w' : World O) × (register_client h c w ≡ goes_on w')
        × (w'.clients ≡ w.clients)
        × (w'.broker.clients ≡ put id c w.broker.clients)
  unfolding register_client register_slot
  register_client-absent still c id w named free =
      let made = finish_register_client-Holds h still c w in
      (
        finish_register_client h c w,
        ap (λ k. register_slot h c (slot (key_of k) w.broker.clients) w) named
            ∙ ap (λ x. register_slot h c x w) free,
        made.objects,
        made.registered ∙ ap (λ k. put (key_of k) c w.broker.clients) named,
      )
