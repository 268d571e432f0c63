-- ===== src/Handlers/Exchanges/Exactly.antt =====
-- Exchanges of QoS 2, and what they give to the message queue (lib/handlers/publish.js and
-- pubrel.js).
use mathlib.Core.Path.{subst}
use aedes.Common.{
  ℕ, suc, ◌+◌, ◌≤◌, ◌≡◌, sym, ◌∙◌, ◌⊎◌, inl, inr, true, false, List, [], ◌∷◌, Option, none, some,
  Text, All, length, arith,
}
use aedes.Packet.{Packet}
use aedes.World.{World, Host, Effect}
use aedes.World.Steps.{note}
use aedes.World.Ends.{Stable, speaks_of_nothing}
use aedes.Delivery.{KeepsIncoming, Serves, IsSteady, emissions}
use aedes.Delivery.Rules.{At}
use aedes.Handlers.Publish.{handle_publish}
use aedes.Handlers.Publish.Ending.{handle_publish-Ends}
use aedes.Handlers.Publish.Guards.{IsPublishable}
use aedes.Handlers.Publish.Exact.{handle_publish-Exactly}
use aedes.Handlers.Publish.Once.{handle_all, handle_all-OnceMore}
use aedes.Handlers.Acks.{handle_pubrel}
use aedes.Handlers.Acks.Ending.{handle_pubrel-Ends}
use aedes.Handlers.Acks.Release.{handle_pubrel-Released}
use aedes.Handlers.Exchanges.{Exchange, release_all, exchange, exchange_all, IsExchange}

module _ {O : Type 0} (c : ℕ) (stored : Option Text → Option ℕ → O → Type 0) (id : Option Text)
    (m : Option ℕ) (h : Host O) (laws : KeepsIncoming h stored id m) (serves : Serves h stored id m)
    (steady : IsSteady h c) (limit : ℕ) where
  abbrev HasLimit : World O → Type 0
  HasLimit w = w.broker.max_topic_levels ≡ limit

  noted_limit : (i : Option ℕ) (e : Effect) (w : World O) → HasLimit w → HasLimit (note i e w)
  noted_limit none e w q = q
  noted_limit (some i) e w q = q

  HasLimit-Stable : Stable h HasLimit
  HasLimit-Stable = record {
    noted = noted_limit;
    answered = λ o w q. serves.same_limit _ ∙ q;
    written = λ o w q. q;
    counted = λ n w q. q;
    set = λ c client w same q. q;
    numbered = λ n w q. q;
  }

  publish_limit :
      (p : Packet) (w : World O) → p.qos ≤ 2 → HasLimit w → HasLimit (handle_publish h c p w).1
  publish_limit p w valid q =
      (handle_publish-Ends h (Unit {0}) HasLimit HasLimit-Stable (speaks_of_nothing h) c p w valid
        q).0

  released_limit : (p : Packet) (w : World O) → HasLimit w → HasLimit (handle_pubrel h c p w).1
  released_limit p w q =
      (handle_pubrel-Ends h (Unit {0}) HasLimit HasLimit-Stable (speaks_of_nothing h) c p w q).0

  -- Between exchanges: `k` packets were given to the message queue, and none is stored.
  pub record Between (k : ℕ) (w : World O) : Type 0 where
    pub at : At c stored id m k k false w
    pub free : ¬ stored id m w.outside
    pub limited : HasLimit w

  handle_all_limit :
      (ps : List Packet) (w : World O)
      → All (λ p. (p.qos ≡ 2) × (p.message_id ≡ m)) ps
      → HasLimit w
      → HasLimit (handle_all h c ps w)
  unfolding handle_all
  handle_all_limit [] w all q = q
  handle_all_limit (p ∷ ps) w (this, all) q =
      handle_all_limit ps (handle_publish h c p w).1 all
        (publish_limit p w (let two = this.0 in omega arith) q)

  -- The packets of a PUBLISH, sent once or more often, give one packet to the message queue.
  published-At :
      (k : ℕ) (x : Exchange) (w : World O)
      → IsExchange limit m x
      → Between k w
      → At c stored id m (suc k) (suc k) true (handle_all h c (x.publish ∷ x.published_again) w)
  unfolding handle_all
  published-At k x w ok b =
      let (this, all) = ok.publishes in
      let first =
        handle_publish-Exactly c stored id m h laws serves steady k x.publish w this.0 this.1
          (subst (λ n. IsPublishable n x.publish.topic) (sym b.limited) ok.publishable) b.free
          b.at in
      only_more (handle_all h c x.published_again (handle_publish h c x.publish w).1) (
        handle_all-OnceMore c stored id m (suc k) h laws steady k x.published_again
          (handle_publish h c x.publish w).1 all (inr first))
    where
      only_more :
          (v : World O)
          → At c stored id m (suc k) k false v ⊎ At c stored id m (suc k) (suc k) true v
          → At c stored id m (suc k) (suc k) true v
      only_more v (inl a) = absurd (let lo = a.least in let hi = a.few in omega arith)
      only_more v (inr a) = a

  release_all-Between :
      (k : ℕ) (ps : List Packet) (w : World O)
      → All (λ p. p.message_id ≡ m) ps
      → Between k w
      → Between k (release_all h c ps w)
  unfolding release_all
  release_all-Between k [] w all b = b
  release_all-Between k (p ∷ ps) w (this, all) b =
      let gone = handle_pubrel-Released c stored id m h laws serves steady k p this w b.at in
      release_all-Between k ps (handle_pubrel h c p w).1 all
        (record { at = gone.0; free = gone.1; limited = released_limit p w b.limited })

  exchange-Between :
      (k : ℕ) (x : Exchange) (w : World O)
      → IsExchange limit m x
      → Between k w
      → Between (suc k) (exchange h c x w)
  unfolding exchange release_all
  exchange-Between k x w ok b =
      let v = handle_all h c (x.publish ∷ x.published_again) w in
      let (this, all) = ok.releases in
      let a = published-At k x w ok b in
      let kept : At c stored id m (suc k) (suc k) false v = record {
        owner = a.owner;
        least = a.least;
        few = a.few;
        kept = λ e. cc;
      } in
      let gone =
        handle_pubrel-Released c stored id m h laws serves steady (suc k) x.release this v kept in
      release_all-Between (suc k) x.released_again (handle_pubrel h c x.release v).1 all (record {
        at = gone.0;
        free = gone.1;
        limited =
            released_limit x.release v
              (handle_all_limit (x.publish ∷ x.published_again) w ok.publishes b.limited);
      })

  exchange_all-Between :
      (k : ℕ) (xs : List Exchange) (w : World O)
      → All (IsExchange limit m) xs
      → Between k w
      → Between (k + length xs) (exchange_all h c xs w)
  unfolding exchange_all
  exchange_all-Between k [] w all b = subst (λ n. Between n w) (omega arith) b
  exchange_all-Between k (x ∷ xs) w (ok, all) b =
      subst (λ n. Between n (exchange_all h c xs (exchange h c x w))) (omega arith)
        (exchange_all-Between (suc k) xs (exchange h c x w) all (exchange-Between k x w ok b))

  -- Where the code outside serves QoS 2 with a message id (KeepsIncoming, Serves) and other tasks
  -- leave the client's object alone (IsSteady): if a client uses the message id for some exchanges,
  -- one after the other, in each of which the PUBLISH and the PUBREL may be sent again and again, and
  -- the id is not in the store at first, then the message queue is given exactly one packet for each
  -- exchange.
  pub exchange_all-exactly :
      (xs : List Exchange) (w : World O)
      → All (IsExchange limit m) xs
      → (w.clients c).id ≡ id
      → (¬ stored id m w.outside)
      → w.broker.max_topic_levels ≡ limit
      → emissions ((exchange_all h c xs w).clients c).trace
        ≡ emissions (w.clients c).trace + length xs
  exchange_all-exactly xs w all owner free limited =
      let b = exchange_all-Between (emissions (w.clients c).trace) xs w all (record {
        at = record { owner = owner; least = omega arith; few = omega arith; kept = λ e. cc };
        free = free;
        limited = limited;
      }) in
      let low = b.at.least in let high = b.at.few in omega arith
