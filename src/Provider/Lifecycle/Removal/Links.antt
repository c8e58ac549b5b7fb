-- ===== src/Provider/Lifecycle/Removal/Links.antt =====
-- What the deletion of one chain does to what is not stored under a consumer's own keys: the client ids
-- and the channels with their reverse indexes, and the queue of the infraction parameters.
use interchain_security.Common.{
  ℕ, ◌≡◌, refl, ap, ◌∙◌, Bool, true, false, Option, none, some, arith, ◌==◌, if◌then◌else◌,
}
use interchain_security.Store
use interchain_security.Store.{Map, elem, get-delete}
use interchain_security.Provider.Phase.{is_stopped}
use interchain_security.Provider.Infraction.{get_queued_infraction_parameters}
use interchain_security.Provider.Infraction.Unscheduled.{cleared, cleared-queued}
use interchain_security.Provider.Consumers.{
  Provider, get_consumer_phase, get_consumer_id_to_channel_id, drop_client,
}
use interchain_security.Provider.Lifecycle.Removal.{drop_channel, delete_consumer_chain}
use interchain_security.Provider.Lifecycle.Removal.Turns.{deleted}

-- No client id, no reverse index of the client and the channel that the chain had, and nothing queued.
pub record IsUnlinked (j : ℕ) (s s' : Provider) : Type 0 where
  pub no_client : Store.get j s'.clients ≡ none
  pub no_client_index :
      (client : ℕ)
      → Store.get j s.clients ≡ some client
      → Store.get client s'.client_consumers ≡ none
  pub no_channel_index :
      (channel : ℕ)
      → get_consumer_id_to_channel_id j s ≡ some channel
      → Store.get channel s'.channel_consumers ≡ none
  pub no_queued : get_queued_infraction_parameters j s'.infractions ≡ none

abbrev pub SameLinks : ℕ → Provider → Provider → Type 0
SameLinks j s s' =
    (Store.get j s'.clients ≡ Store.get j s.clients)
    × (get_queued_infraction_parameters j s'.infractions
        ≡ get_queued_infraction_parameters j s.infractions)

-- What is not there is not there after a deletion.
get-delete-none :
    {V : Type 0} (k j : ℕ) (m : Map V)
    → Store.get j m ≡ none
    → Store.get j (Store.delete k m) ≡ none
get-delete-none k j m e = go (j == k) (get-delete k j m)
  where
    go :
        (x : Bool)
        → Store.get j (Store.delete k m) ≡ (if x then none else Store.get j m)
        → Store.get j (Store.delete k m) ≡ none
    go true q = q
    go false q = q ∙ e

get-delete-own : {V : Type 0} (k : ℕ) (m : Map V) → Store.get k (Store.delete k m) ≡ none
get-delete-own k m =
    let own : (k == k) ≡ true = ground arith in
    get-delete k k m ∙ ap (λ x. if x then none else Store.get k m) own

-- The deletion of one stopped chain.
module _ (id : ℕ) (s : Provider) (stopped : is_stopped (get_consumer_phase id s) ≡ true) where
  deleted-clients : (deleted id s).clients ≡ Store.delete id s.clients
  unfolding delete_consumer_chain
  deleted-clients = rw (stopped, deleted, delete_consumer_chain) refl

  deleted-client_consumers :
      (deleted id s).client_consumers ≡ drop_client (Store.get id s.clients) s.client_consumers
  unfolding delete_consumer_chain
  deleted-client_consumers = rw (stopped, deleted, delete_consumer_chain) refl

  deleted-channel_consumers :
      (deleted id s).channel_consumers
      ≡ drop_channel (get_consumer_id_to_channel_id id s) s.channel_consumers
  unfolding delete_consumer_chain
  deleted-channel_consumers = rw (stopped, deleted, delete_consumer_chain) refl

  pub deleted-infractions : (deleted id s).infractions ≡ cleared id s.infractions
  unfolding delete_consumer_chain
  deleted-infractions = rw (stopped, deleted, delete_consumer_chain) refl

  pub deleted-IsUnlinked : IsUnlinked id s (deleted id s)
  deleted-IsUnlinked = record {
    no_client = ap (Store.get id) deleted-clients ∙ get-delete-own id s.clients;
    no_client_index = λ client e.
        ap (Store.get client) deleted-client_consumers
        ∙ ap (λ o. Store.get client (drop_client o s.client_consumers)) e
        ∙ get-delete-own client s.client_consumers;
    no_channel_index = λ channel e.
        ap (Store.get channel) deleted-channel_consumers
        ∙ ap (λ o. Store.get channel (drop_channel o s.channel_consumers)) e
        ∙ get-delete-own channel s.channel_consumers;
    no_queued =
        let own : (id == id) ≡ true = ground arith in
        ap (get_queued_infraction_parameters id) deleted-infractions
        ∙ cleared-queued id id s.infractions
        ∙ ap (λ x. if x then none else get_queued_infraction_parameters id s.infractions) own;
  }

  pub deleted-SameLinks : (j : ℕ) → (j == id) ≡ false → SameLinks j s (deleted id s)
  deleted-SameLinks j other = (
    ap (Store.get j) deleted-clients
        ∙ get-delete id j s.clients
        ∙ ap (λ x. if x then none else Store.get j s.clients) other,
    ap (get_queued_infraction_parameters j) deleted-infractions
        ∙ cleared-queued id j s.infractions
        ∙ ap (λ x. if x then none else get_queued_infraction_parameters j s.infractions) other,
  )

  -- What was gone stays gone.
  pub deleted-keeps : (j : ℕ) (s0 : Provider) → IsUnlinked j s0 s → IsUnlinked j s0 (deleted id s)
  deleted-keeps j s0 u = record {
    no_client = ap (Store.get j) deleted-clients ∙ get-delete-none id j s.clients u.no_client;
    no_client_index = λ client e.
        ap (Store.get client) deleted-client_consumers
        ∙ dropped_client client (Store.get id s.clients) (u.no_client_index client e);
    no_channel_index = λ channel e.
        ap (Store.get channel) deleted-channel_consumers
        ∙ dropped_channel channel (get_consumer_id_to_channel_id id s)
            (u.no_channel_index channel e);
    no_queued =
        ap (get_queued_infraction_parameters j) deleted-infractions
        ∙ cleared-queued id j s.infractions
        ∙ go (j == id) u.no_queued;
  }
    where
      dropped_client :
          (client : ℕ) (o : Option ℕ)
          → Store.get client s.client_consumers ≡ none
          → Store.get client (drop_client o s.client_consumers) ≡ none
      dropped_client client none e = e
      dropped_client client (some c) e = get-delete-none c client s.client_consumers e

      dropped_channel :
          (channel : ℕ) (o : Option ℕ)
          → Store.get channel s.channel_consumers ≡ none
          → Store.get channel (drop_channel o s.channel_consumers) ≡ none
      dropped_channel channel none e = e
      dropped_channel channel (some c) e = get-delete-none c channel s.channel_consumers e

      go : {A : Type 0} {o : Option A} (x : Bool) → o ≡ none → (if x then none else o) ≡ none
      go true e = refl
      go false e = e
