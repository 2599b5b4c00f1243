-- ===== src/Kafka/Secured.antt =====
-- No client of Kafka without a verified certificate and credentials.
use synp.Prelude.{
  false, Option, none, some, [], arith, ◌≡◌, refl, ◌⊎◌, inl, inr, ◌↔◌, ◌≢◌, Bool-cases, subst, sym,
}
use synp.Prelude.Text.{Text, codes, text_eq, text_eq_iff}
use synp.Fault.{Result, ok, err}
use synp.Kafka.Oauth.{new_kafka_oauth_mechanism}
use synp.Kafka.Settings.{
  KafkaConfig, KafkaSaslConfig, require_all, TlsConfig, Mechanism, scram, oauth,
  configure_kafka_tls, configure_kafka_sasl, configure_kafka_sasl_scram, configure_kafka_sasl_oauth,
  version_tls13, KafkaTlsConfig, scram_made, pool_made,
}
use synp.Kafka.Client.{
  KafkaFxResult, load_kafka_config, new_kafka_client, with_tls, new_writer, new_reader, acks_of,
}

different : (a b : Text) → text_eq a b ≡ false → a ≢ b
different a b h e = cc (h, (text_eq_iff a b).1 e)

unequal : (a b : Text) → a ≢ b → text_eq a b ≡ false
unequal a b n = elim (Bool-cases (text_eq a b)) [
  | inl y ↦ absurd (n ((text_eq_iff a b).0 y))
  | inr h ↦ h
]

module _ {Scram : Type 0} (sha256 : Text → Text → Result Scram) where
  -- The mechanism is of the credentials of the configuration, which are not empty.
  pub data IsAuthentic (cfg : KafkaSaslConfig) (m : Mechanism Scram) : Type 0 where
    by_scram :
        (s : Scram)
        → (cfg.mechanism ≡ []) ⊎ (cfg.mechanism ≡ codes "scram")
        → cfg.username ≢ []
        → cfg.password ≢ []
        → sha256 cfg.username cfg.password ≡ ok s
        → m ≡ scram s
        → IsAuthentic cfg m
    by_oauth :
        cfg.mechanism ≡ codes "oauth"
        → cfg.oauth.endpoint ≢ []
        → cfg.oauth.client_id ≢ []
        → cfg.oauth.client_secret ≢ []
        → m
          ≡ oauth (
              new_kafka_oauth_mechanism cfg.oauth.endpoint cfg.oauth.client_id
                cfg.oauth.client_secret)
        → IsAuthentic cfg m

  scram_made-ok :
      (r : Result Scram) (m : Mechanism Scram)
      → scram_made r ≡ ok m
      → (s : Scram) × (r ≡ ok s) × (m ≡ scram s)
  scram_made-ok (err e) m h = cc
  scram_made-ok (ok s) m h = (s, refl, cc (h))

  scram-IsAuthentic :
      (cfg : KafkaSaslConfig) (m : Mechanism Scram)
      → (cfg.mechanism ≡ []) ⊎ (cfg.mechanism ≡ codes "scram")
      → configure_kafka_sasl_scram sha256 cfg ≡ ok m
      → IsAuthentic cfg m
  unfolding configure_kafka_sasl_scram
  scram-IsAuthentic cfg m h e = elim (Bool-cases (text_eq cfg.username [])) [
    | inl y ↦ ground (arith, e, y)
    | inr u ↦ elim (Bool-cases (text_eq cfg.password [])) [
      | inl y ↦ ground (arith, e, y)
      | inr p ↦
          let (s, r, f) = scram_made-ok (sha256 cfg.username cfg.password) m (simp (u, p) at e) in
          by_scram s h (different cfg.username [] u) (different cfg.password [] p) r f
    ]
  ]

  oauth-IsAuthentic :
      (cfg : KafkaSaslConfig) (m : Mechanism Scram)
      → cfg.mechanism ≡ codes "oauth"
      → configure_kafka_sasl_oauth cfg.oauth ≡ ok m
      → IsAuthentic cfg m
  unfolding configure_kafka_sasl_oauth
  oauth-IsAuthentic cfg m h e = elim (Bool-cases (text_eq cfg.oauth.endpoint [])) [
    | inl y ↦ ground (arith, e, y)
    | inr n ↦ elim (Bool-cases (text_eq cfg.oauth.client_id [])) [
      | inl y ↦ ground (arith, e, y)
      | inr i ↦ elim (Bool-cases (text_eq cfg.oauth.client_secret [])) [
        | inl y ↦ ground (arith, e, y)
        | inr c ↦
            by_oauth h (different cfg.oauth.endpoint [] n) (different cfg.oauth.client_id [] i)
              (different cfg.oauth.client_secret [] c) (ground (arith, e, n, i, c))
      ]
    ]
  ]

  configured :
      (cfg : KafkaSaslConfig) (m : Mechanism Scram)
      → configure_kafka_sasl sha256 cfg ≡ ok m
      → IsAuthentic cfg m
  unfolding configure_kafka_sasl text_eq
  configured cfg m e = elim (Bool-cases (text_eq cfg.mechanism [])) [
    | inl y ↦ scram-IsAuthentic cfg m (inl ((text_eq_iff cfg.mechanism []).0 y)) (simp y at e)
    | inr n ↦ elim (Bool-cases (text_eq cfg.mechanism (codes "scram"))) [
      | inl y ↦
          scram-IsAuthentic cfg m (inr ((text_eq_iff cfg.mechanism (codes "scram")).0 y))
            (simp (n, y) at e)
      | inr k ↦ elim (Bool-cases (text_eq cfg.mechanism (codes "oauth"))) [
        | inl y ↦
            oauth-IsAuthentic cfg m ((text_eq_iff cfg.mechanism (codes "oauth")).0 y)
              (simp (n, k, y) at e)
        | inr l ↦ ground (arith, e, n, k, l)
      ]
    ]
  ]

  authentic-ok :
      (cfg : KafkaSaslConfig) (m : Mechanism Scram)
      → IsAuthentic cfg m
      → configure_kafka_sasl sha256 cfg ≡ ok m
  unfolding configure_kafka_sasl configure_kafka_sasl_scram configure_kafka_sasl_oauth text_eq
  authentic-ok cfg m (by_scram s (inl n) u p r e) =
      rw (n, r, unequal cfg.username [] u, unequal cfg.password [] p, e) refl
  authentic-ok cfg m (by_scram s (inr n) u p r e) =
      rw (n, r, unequal cfg.username [] u, unequal cfg.password [] p, e) refl
  authentic-ok cfg m (by_oauth n p i c e) =
      rw
        (
          n,
          unequal cfg.oauth.endpoint [] p,
          unequal cfg.oauth.client_id [] i,
          unequal cfg.oauth.client_secret [] c,
          e,
        )
        refl

  -- Where a mechanism is configured, it is made of the credentials that its name asks for, which are
  -- not empty; and where they are there, and scram takes its, there is one.
  pub configure_kafka_sasl_iff :
      (cfg : KafkaSaslConfig) (m : Mechanism Scram)
      → (configure_kafka_sasl sha256 cfg ≡ ok m) ↔ IsAuthentic cfg m
  configure_kafka_sasl_iff cfg m = (configured cfg m, authentic-ok cfg m)

module _ {Pool Scram : Type 0} (append_certs : Text → Option Pool)
    (sha256 : Text → Text → Result Scram) where
  -- The writer and all readers use the same mechanism, and the same configuration of TLS 1.3, which
  -- verifies certificates against those of the configuration; an idempotent writer waits for all.
  pub record IsSecured (cfg : KafkaConfig) (r : KafkaFxResult Pool Scram) : Type 0 where
    pub certified : append_certs cfg.tls.ca ≡ some r.writer.tls.root_cas
    pub version : r.writer.tls.min_version ≡ version_tls13
    pub verified : r.writer.tls.insecure_skip_verify ≡ false
    pub authentic : IsAuthentic sha256 cfg.sasl r.writer.sasl
    pub same_tls :
        (topic group_id : Text) → (r.reader_create_func topic group_id).tls ≡ r.writer.tls
    pub same_sasl :
        (topic group_id : Text)
        → (r.reader_create_func topic group_id).sasl_mechanism ≡ r.writer.sasl
    pub idempotent :
        (cfg.producer.idempotent_enabled ≡ false) ⊎ (r.writer.required_acks ≡ require_all)

  pool_made-ok :
      (ca : Text) (o : Option Pool) (tls : TlsConfig Pool)
      → append_certs ca ≡ o
      → pool_made o ≡ ok tls
      → (append_certs ca ≡ some tls.root_cas)
        × (tls.min_version ≡ version_tls13)
        × (tls.insecure_skip_verify ≡ false)
  pool_made-ok ca none tls f h = cc
  pool_made-ok ca (some pool) tls f h = ground (arith, f, h)

  configure_kafka_tls-ok :
      (cfg : KafkaTlsConfig) (tls : TlsConfig Pool)
      → configure_kafka_tls append_certs cfg ≡ ok tls
      → (append_certs cfg.ca ≡ some tls.root_cas)
        × (tls.min_version ≡ version_tls13)
        × (tls.insecure_skip_verify ≡ false)
  unfolding configure_kafka_tls
  configure_kafka_tls-ok cfg tls h = elim (Bool-cases (text_eq cfg.ca [])) [
    | inl y ↦ ground (arith, h, y)
    | inr n ↦ pool_made-ok cfg.ca (append_certs cfg.ca) tls refl (simp n at h)
  ]

  made_of :
      (cfg : KafkaConfig) (tls : TlsConfig Pool) (m : Mechanism Scram)
      (r : KafkaFxResult Pool Scram)
      → configure_kafka_sasl sha256 cfg.sasl ≡ ok m
      → with_tls append_certs sha256 cfg (ok tls) ≡ ok r
      → r ≡ record { writer = new_writer cfg tls m; reader_create_func = new_reader cfg tls m }
  made_of cfg tls m r g h = ground (arith, g, h)

  waits :
      (cfg : KafkaConfig) → (cfg.producer.idempotent_enabled ≡ false) ⊎ (acks_of cfg ≡ require_all)
  waits cfg = elim (Bool-cases cfg.producer.idempotent_enabled) [
    | inl y ↦ inr (simp y)
    | inr n ↦ inl n
  ]

  secured :
      (cfg : KafkaConfig) (t : Result (TlsConfig Pool)) (s : Result (Mechanism Scram))
      (r : KafkaFxResult Pool Scram)
      → configure_kafka_tls append_certs cfg.tls ≡ t
      → configure_kafka_sasl sha256 cfg.sasl ≡ s
      → with_tls append_certs sha256 cfg t ≡ ok r
      → IsSecured cfg r
  secured cfg (err e) s r f g h = cc
  secured cfg (ok tls) (err e) r f g h = ground (arith, g, h)
  secured cfg (ok tls) (ok m) r f g h =
      let (pool, version, verified) = configure_kafka_tls-ok cfg.tls tls f in
      subst (IsSecured cfg) (sym (made_of cfg tls m r g h)) (record {
        certified = pool;
        version = version;
        verified = verified;
        authentic = configured sha256 cfg.sasl m g;
        same_tls = λ topic group_id. refl;
        same_sasl = λ topic group_id. refl;
        idempotent = waits cfg;
      })

  -- A client that newKafkaClient returns is of a configuration that was read: its certificates were
  -- added to a pool, which the writer and the readers of every topic and group use, with TLS 1.3 and
  -- verification; they all use the mechanism of its credentials, and if the writer is to be
  -- idempotent, it waits for all replicas.
  pub new_kafka_client-IsSecured :
      (unmarshal : Result KafkaConfig) (r : KafkaFxResult Pool Scram)
      → new_kafka_client append_certs sha256 unmarshal ≡ ok r
      → (cfg : KafkaConfig) × (unmarshal ≡ ok cfg) × IsSecured cfg r
  unfolding new_kafka_client load_kafka_config
  new_kafka_client-IsSecured (err e) r h = cc
  new_kafka_client-IsSecured (ok cfg) r h = (
    cfg,
    refl,
    secured cfg (configure_kafka_tls append_certs cfg.tls) (configure_kafka_sasl sha256 cfg.sasl) r
        refl refl h,
  )
