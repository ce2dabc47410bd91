-- ===== src/Mqtt/Discovery/Announced.antt =====
-- internal/mqtt/discovery.go with state.go: paho is asked to publish on what is announced.
use mathlib.Core.Path.{subst}
use home_drive.Base.{
  ◌≡◌, refl, sym, ◌∙◌, Bool, true, false, List, [], ◌∷◌, ◌++◌, ◌⊎◌, inl, inr, All,
}
use home_drive.Base.Text.{Bytes, codes}
use home_drive.Mqtt.{
  Client, Action, Message, published, disconnected, topic, publish, to_bytes, counted, on_connect,
  online_topic,
}
use home_drive.Mqtt.State.{
  Providers, Texts, publish_string, publish_timestamp, publish_int, publish_float, publish_state,
}
use home_drive.Mqtt.Discovery.{entities}

-- Among what paho is asked for is a publication on a topic with the retain flag.
abbrev pub AskedFor : Bytes → List Action → Type 0
AskedFor t [] = ⊥
AskedFor t (published m ∷ rest) = ((m.topic ≡ t) × (m.retain ≡ true)) ⊎ AskedFor t rest
AskedFor t (disconnected ∷ rest) = AskedFor t rest

earlier : (t : Bytes) (xs ys : List Action) → AskedFor t xs → AskedFor t (xs ++ ys)
earlier t [] ys h = absurd h
earlier t (published m ∷ xs) ys (inl h) = inl h
earlier t (published m ∷ xs) ys (inr h) = inr (earlier t xs ys h)
earlier t (disconnected ∷ xs) ys h = earlier t xs ys h

latest :
    (t : Bytes) (xs : List Action) (m : Message)
    → m.topic ≡ t
    → m.retain ≡ true
    → AskedFor t (xs ++ published m ∷ [])
latest t [] m e r = inl (e, r)
latest t (published x ∷ xs) m e r = inr (latest t xs m e r)
latest t (disconnected ∷ xs) m e r = latest t xs m e r

abbrev said : Bytes → Bytes → Client → Action
said sub value d =
    published (record { topic = topic d (sub ∷ []); qos = 1; retain = true; payload = value })

publish_string-actions :
    (good : Bool) (sub value : Bytes) (d : Client)
    → (publish_string good sub value d).actions ≡ d.actions ++ said sub value d ∷ []
unfolding publish_string publish to_bytes counted
publish_string-actions true sub value d = refl
publish_string-actions false sub value d = refl

publish_string-topic :
    (good : Bool) (sub value : Bytes) (d : Client) (parts : List Bytes)
    → topic (publish_string good sub value d) parts ≡ topic d parts
unfolding publish_string publish to_bytes counted topic
publish_string-topic true sub value d parts = refl
publish_string-topic false sub value d parts = refl

-- What has been said since `c`, the latest first.
record Said (subs : List Bytes) (c d : Client) : Type 0 where
  topics : (parts : List Bytes) → topic d parts ≡ topic c parts
  says : All (λ sub. AskedFor (topic c (sub ∷ [])) d.actions) subs

still-Said :
    (c : Client) (subs : List Bytes) (xs ys : List Action)
    → All (λ sub. AskedFor (topic c (sub ∷ [])) xs) subs
    → All (λ sub. AskedFor (topic c (sub ∷ [])) (xs ++ ys)) subs
still-Said c [] xs ys h = tt
still-Said c (sub ∷ subs) xs ys h =
    (earlier (topic c (sub ∷ [])) xs ys h.0, still-Said c subs xs ys h.1)

publish_string-Said :
    (good : Bool) (sub value : Bytes) (subs : List Bytes) (c d : Client)
    → Said subs c d
    → Said (sub ∷ subs) c (publish_string good sub value d)
publish_string-Said good sub value subs c d h = record {
  topics = λ parts. publish_string-topic good sub value d parts ∙ h.topics parts;
  says =
      subst (λ xs. All (λ s. AskedFor (topic c (s ∷ [])) xs) (sub ∷ subs))
        (sym (publish_string-actions good sub value d))
        (
          latest (topic c (sub ∷ [])) d.actions _ (h.topics (sub ∷ [])) refl,
          still-Said c subs d.actions (said sub value d ∷ []) h.says,
        );
}

on_connect-Said :
    (in_time : Bool) (c : Client) → Said (codes "online" ∷ []) c (on_connect in_time c)
unfolding on_connect counted topic
on_connect-Said true c = record {
  topics = λ parts. refl;
  says = (latest (online_topic c) c.actions _ refl refl, tt);
}
on_connect-Said false c = record {
  topics = λ parts. refl;
  says = (latest (online_topic c) c.actions _ refl refl, tt);
}

module _ {F : Type 0} (texts : Texts F) (good : Bool) (p : Providers F) where
  publish_state-Said :
      (c d : Client) (subs : List Bytes)
      → Said subs c d
      → Said
          (codes "quota_used_pct"
            ∷ codes "bytes_down_24h"
            ∷ codes "bytes_up_24h"
            ∷ codes "conflicts_24h"
            ∷ codes "queue/pending_down"
            ∷ codes "queue/pending_up"
            ∷ codes "last_pull"
            ∷ codes "last_push"
            ∷ codes "status"
            ∷ subs)
          c
          (publish_state texts good p d)
  unfolding publish_state publish_timestamp publish_int publish_float
  publish_state-Said c d subs h = publish_string-Said good _ _ _ c _ (
      publish_string-Said good _ _ _ c _ (
        publish_string-Said good _ _ _ c _ (
          publish_string-Said good _ _ _ c _ (
            publish_string-Said good _ _ _ c _ (
              publish_string-Said good _ _ _ c _ (
                publish_string-Said good _ _ _ c _
                  (publish_string-Said good _ _ _ c _ (publish_string-Said good _ _ _ c _ h))))))))

  -- In a connection and one publication of the states, whether the tokens complete or not, paho is
  -- asked to publish with the retain flag on the state topic of every entity that is announced to
  -- Home Assistant. What the broker then keeps is not stated: a token may fail, and the payload of a
  -- time that is zero is empty, by which a broker drops what it kept.
  pub entities-AskedFor :
      (in_time : Bool) (c : Client)
      → All
          (λ e.
            AskedFor
              (topic c (e.state_topic ∷ []))
              (publish_state texts good p (on_connect in_time c)).actions)
          entities
  entities-AskedFor in_time c =
      let (
        quota,
        (
          down,
          (up, (conflicts, (pending_down, (pending_up, (pull, (push, (status, (online, _)))))))),
        ),
      ) =
        (publish_state-Said c (on_connect in_time c) _ (on_connect-Said in_time c)).says in
      (
        status,
        (
          push,
          (pull, (pending_up, (pending_down, (conflicts, (up, (down, (quota, (online, tt)))))))),
        ),
      )
