-- ===== src/Provider/Handshake/Paired.antt =====
-- The two mappings between consumer chains and channels.
use interchain_security.Common.{
  ℕ, ◌≡◌, refl, sym, ap, ◌∙◌, subst, Bool, true, false, List, [], ◌∷◌, Option, none, some, arith,
  ◌==◌, if◌then◌else◌, inl, inr, Bool-cases, is_some,
}
use interchain_security.Common.Outcome.{
  Outcome, ok, err, ok_inj, client_not_found, connection_not_found, invalid_client_type,
  continue-ok, or_fail, or_fail-ok, reject_if-ok, channel_not_found, no_consumer_id,
  duplicate_channel,
}
use interchain_security.Store.{get-set}
use interchain_security.Provider.Staking.{Block}
use interchain_security.Provider.Ibc.{Ibc, ClientState, ConnectionEnd}
use interchain_security.Provider.Consumers.{
  Consumer, Provider, get_consumer_id_to_channel_id, get_channel_id_to_consumer_id,
}
use interchain_security.Provider.Relay.Sending.{OneChannel}
use interchain_security.Provider.Relay.Queued.{update_at_twice}
use interchain_security.Provider.Handshake.{
  get_client_id_to_consumer_id, with_channel, with_init_height, set_consumer_id_to_channel_id,
  set_channel_to_consumer_id, set_init_chain_height, get_underlying_client, only_hop,
  set_consumer_chain,
}

-- The channel of a chain leads back to the chain.
abbrev pub IsPaired : Provider → Type 0
IsPaired s =
    (j channel : ℕ)
    → get_consumer_id_to_channel_id j s ≡ some channel
    → get_channel_id_to_consumer_id channel s ≡ some j

IsPaired-OneChannel : (s : Provider) → IsPaired s → OneChannel s
IsPaired-OneChannel s paired j k channel e e' =
    let same : some j ≡ some k = sym (paired j channel e) ∙ paired k channel e' in cc

some_inj : {a b : ℕ} → some a ≡ some b → a ≡ b
some_inj e = cc

none_if : (o : Option ℕ) → is_some o ≡ false → o ≡ none
none_if none e = refl
none_if (some a) e = cc

-- The mappings for a chain without a channel and a channel that is not used.
established : ℕ → ℕ → ℕ → Provider → Provider
established id channel height s =
    set_init_chain_height id height
      (set_channel_to_consumer_id channel id (set_consumer_id_to_channel_id id channel s))

established-channel :
    (id j channel height : ℕ) (s : Provider)
    → get_consumer_id_to_channel_id j (established id channel height s)
      ≡ (if j == id then some channel else get_consumer_id_to_channel_id j s)
unfolding established
established-channel id j channel height s =
    ap (λ c. c.channel)
      (update_at_twice id j (with_channel channel) (with_init_height height) s.consumers)
    ∙ go (j == id) (s.consumers id) (s.consumers j)
  where
    go :
        (x : Bool) (c d : Consumer)
        → (if x then with_init_height height (with_channel channel c) else d).channel
          ≡ (if x then some channel else d.channel)
    go true c d = refl
    go false c d = refl

established-IsPaired :
    (id channel height : ℕ) (s : Provider)
    → get_channel_id_to_consumer_id channel s ≡ none
    → IsPaired s
    → IsPaired (established id channel height s)
unfolding established
established-IsPaired id channel height s free paired j k e =
    get-set channel k id s.channel_consumers
    ∙ go (j == id) refl (sym (established-channel id j channel height s) ∙ e)
  where
    go :
        (x : Bool)
        → (j == id) ≡ x
        → (if x then some channel else get_consumer_id_to_channel_id j s) ≡ some k
        → (if k == channel then some id else get_channel_id_to_consumer_id k s) ≡ some j
    go true at q =
        let same : channel ≡ k = some_inj q in
        let there : j ≡ id = ground (arith, at) in
        let found : (k == channel) ≡ true = ground (arith, same) in
        ap (λ x. if x then some id else get_channel_id_to_consumer_id k s) found
        ∙ ap some (sym there)
    go false other q = elim (Bool-cases (k == channel)) [
      | inl at ↦
          let same : k ≡ channel = ground (arith, at) in
          let taken : get_channel_id_to_consumer_id channel s ≡ some j =
            ap (λ c. get_channel_id_to_consumer_id c s) (sym same) ∙ paired j k q in
          cc
      | inr new ↦
          ap (λ x. if x then some id else get_channel_id_to_consumer_id k s) new ∙ paired j k q
    ]

only_hop-ok : (hops : List ℕ) (h : ℕ) → only_hop hops ≡ ok h → hops ≡ h ∷ []
only_hop-ok [] h e = cc
only_hop-ok (x ∷ []) h e = ap (λ n. n ∷ []) (ok_inj e)
only_hop-ok (x ∷ y ∷ hops) h e = cc

-- The client of a connection is a Tendermint client.
abbrev pub HasClient : Ibc → ℕ → ℕ → ClientState → Type 0
HasClient i connection_id client_id state =
    (connection : ConnectionEnd) × ((i.get_connection connection_id ≡ some connection)
      × ((connection.client_id ≡ client_id)
          × ((i.get_client_state client_id ≡ some state) × (state.is_tendermint ≡ true))))

get_underlying_client-HasClient :
    (i : Ibc) (connection_id client_id : ℕ) (state : ClientState)
    → get_underlying_client i connection_id ≡ ok (client_id, state)
    → HasClient i connection_id client_id state
unfolding get_underlying_client
get_underlying_client-HasClient i connection_id client_id state =
    of_connection (i.get_connection connection_id) refl
  where
    checked : ℕ → ClientState → Bool → Outcome (ℕ × ClientState)
    checked id client x = if x then ok (id, client) else err invalid_client_type

    with_state : ℕ → Option ClientState → Outcome (ℕ × ClientState)
    with_state id o = elim o [
      | none ↦ err client_not_found
      | some client ↦ checked id client client.is_tendermint
    ]

    of_client :
        (c : ConnectionEnd) (o : Option ClientState)
        → i.get_connection connection_id ≡ some c
        → i.get_client_state c.client_id ≡ o
        → with_state c.client_id o ≡ ok (client_id, state)
        → HasClient i connection_id client_id state
    of_client c none e q r = cc
    of_client c (some client) e q r = go client.is_tendermint refl r
      where
        go :
            (x : Bool)
            → client.is_tendermint ≡ x
            → checked c.client_id client x ≡ ok (client_id, state)
            → HasClient i connection_id client_id state
        go false y r = cc
        go true y r =
            let same = ok_inj r in
            let id : c.client_id ≡ client_id = ap (λ p. p.0) same in
            let it : client ≡ state = ap (λ p. p.1) same in
            (
              c,
              (
                e,
                (
                  id,
                  (
                    ap i.get_client_state (sym id) ∙ q ∙ ap some it,
                    ap (λ s. s.is_tendermint) (sym it) ∙ y,
                  ),
                ),
              ),
            )

    of_connection :
        (o : Option ConnectionEnd)
        → i.get_connection connection_id ≡ o
        → elim o as (λ x. Outcome (ℕ × ClientState)) [
          | none ↦ err connection_not_found
          | some c ↦ with_state c.client_id (i.get_client_state c.client_id)
        ]
          ≡ ok (client_id, state)
        → HasClient i connection_id client_id state
    of_connection none e r = cc
    of_connection (some c) e r = of_client c (i.get_client_state c.client_id) e refl r

-- Which chain a channel is for: its only hop is a connection with a Tendermint client, and this client
-- belongs to the chain.
abbrev pub IsFor : Ibc → ℕ → ℕ → Provider → Type 0
IsFor i channel id s =
    (connection_id : ℕ) × ((i.connection_hops channel ≡ some (connection_id ∷ []))
      × ((client_id : ℕ) × ((state : ClientState) × (HasClient i connection_id client_id state
              × (get_client_id_to_consumer_id client_id s ≡ some id)))))

established-height :
    (id channel height : ℕ) (s : Provider)
    → ((established id channel height s).consumers id).init_chain_height ≡ some height
unfolding established
established-height id channel height s = go (s.consumers id) (id == id) (ground arith)
  where
    height_of : Consumer → Option ℕ
    height_of c = c.init_chain_height

    go :
        (c : Consumer) (x : Bool)
        → x ≡ true
        → height_of (
            if x
            then with_init_height height (if x then with_channel channel c else c)
            else (if x then with_channel channel c else c))
          ≡ some height
    go c true e = refl
    go c false e = cc

-- A successful call finds the chain for the channel and maps the two to each other.
set_consumer_chain-established :
    (i : Ibc) (b : Block) (channel : ℕ) (s s' : Provider)
    → set_consumer_chain i b channel s ≡ (ok tt, s')
    → (id : ℕ) × (IsFor i channel id s
        × ((get_consumer_id_to_channel_id id s ≡ none) × (established id channel b.height s ≡ s')))
unfolding set_consumer_chain established
set_consumer_chain-established i b channel s s' e =
    let m1 = continue-ok (or_fail (i.connection_hops channel) channel_not_found s) _ tt s' e in
    let m2 = continue-ok (only_hop m1.0, m1.1.0) _ tt s' m1.1.1.1 in
    let m3 = continue-ok (get_underlying_client i m2.0, m2.1.0) _ tt s' m2.1.1.1 in
    let client = m3.0.0 in
    let m4 =
      continue-ok (or_fail (get_client_id_to_consumer_id client m3.1.0) no_consumer_id m3.1.0) _ tt
        s' m3.1.1.1 in
    let id = m4.0 in
    let m5 =
      reject_if-ok (is_some (get_consumer_id_to_channel_id id m4.1.0)) duplicate_channel m4.1.0 _ tt
        s' m4.1.1.1 in
    let hops = or_fail-ok (i.connection_hops channel) channel_not_found s m1.0 m1.1.0 m1.1.1.0 in
    let owner =
      or_fail-ok (get_client_id_to_consumer_id client m3.1.0) no_consumer_id m3.1.0 id m4.1.0
        m4.1.1.0 in
    let before : s ≡ m3.1.0 = hops.1 ∙ ap (λ r. r.1) m2.1.1.0 ∙ ap (λ r. r.1) m3.1.1.0 in
    let same : s ≡ m4.1.0 = before ∙ owner.1 in
    let one_hop = ap some (only_hop-ok m1.0 m2.0 (ap (λ r. r.0) m2.1.1.0)) in
    let has_client =
      get_underlying_client-HasClient i m2.0 client m3.0.1 (ap (λ r. r.0) m3.1.1.0) in
    let owned = ap (get_client_id_to_consumer_id client) before ∙ owner.0 in
    (
      id,
      (
        (m2.0, (hops.0 ∙ one_hop, (client, (m3.0.1, (has_client, owned))))),
        (
          ap (get_consumer_id_to_channel_id id) same
              ∙ none_if (get_consumer_id_to_channel_id id m4.1.0) m5.0,
          ap (established id channel b.height) same ∙ ap (λ r. r.1) m5.1,
        ),
      ),
    )

-- Where `SetConsumerChain` succeeds with a channel that is not mapped yet, the channel has one hop only, a
-- connection with a Tendermint client that belongs to a consumer chain, which had no channel before. The
-- channel and this chain are mapped to each other then, and the block's height is the chain's initial height;
-- and where the channel of every chain leads back to the chain, it does so after it, so that no two chains
-- have one channel.
pub set_consumer_chain-IsPaired :
    (i : Ibc) (b : Block) (channel : ℕ) (s s' : Provider)
    → get_channel_id_to_consumer_id channel s ≡ none
    → IsPaired s
    → set_consumer_chain i b channel s ≡ (ok tt, s')
    → (IsPaired s' × OneChannel s')
      × ((id : ℕ) × (IsFor i channel id s
            × ((get_consumer_id_to_channel_id id s ≡ none)
                × ((get_consumer_id_to_channel_id id s' ≡ some channel)
                    × ((get_channel_id_to_consumer_id channel s' ≡ some id)
                        × ((s'.consumers id).init_chain_height ≡ some b.height))))))
set_consumer_chain-IsPaired i b channel s s' free paired e =
    let (id, (for_it, (fresh, end))) = set_consumer_chain-established i b channel s s' e in
    let own : (id == id) ≡ true = ground arith in
    let paired' : IsPaired s' =
      subst IsPaired end (established-IsPaired id channel b.height s free paired) in
    let mapped : get_consumer_id_to_channel_id id s' ≡ some channel =
      ap (get_consumer_id_to_channel_id id) (sym end)
      ∙ established-channel id id channel b.height s
      ∙ ap (λ x. if x then some channel else get_consumer_id_to_channel_id id s) own in
    let height : (s'.consumers id).init_chain_height ≡ some b.height =
      ap (λ y. (y.consumers id).init_chain_height) (sym end)
      ∙ established-height id channel b.height s in
    (
      (paired', IsPaired-OneChannel s' paired'),
      (id, (for_it, (fresh, (mapped, (paired' id channel mapped, height))))),
    )
