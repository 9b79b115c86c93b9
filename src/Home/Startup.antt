-- ===== src/Home/Startup.antt =====
-- What brokerpp/src/brokerpp/main.cpp and publisherpp/src/publisherpp/main.cpp do up to the point
-- where they wait for the signal to end. An exception leaves `main`. Whether the TLS files can be
-- loaded is an argument; the server and the thread pool are those of libraries.
use tunnel_drill.Prelude.{
  ℕ, ◌≡◌, refl, Bool, true, false, List, Option, String, if◌then◌else◌, Outcome, subst, sym, ◌↔◌,
  bind-done, done, thrown, ◌>>=◌, Bool-cases, inl, inr, ◌∙◌, ap,
}
use tunnel_drill.Json.{Json}
use tunnel_drill.Auth.{UsersFile}
use tunnel_drill.PublisherClient.Control.{Service}
use tunnel_drill.Home.{Home, load_home_file, setup_home}
use tunnel_drill.Home.Users.{load_users}
use tunnel_drill.Home.PublisherConfig as Publisher
use tunnel_drill.Home.BrokerConfig as Broker

-- What the listeners of the broker are made of, and what `server.start` is called with. Whether
-- that succeeds is not modelled.
pub record Serving : Type 0 where
  pub private_jwt : List ℕ
  pub users : UsersFile
  pub public_jwt : List ℕ
  pub served_directory : String
  pub bind : Broker.ServerConfig
  pub ssl : Bool

-- makeSslContext, if the configuration asks for it.
abbrev pub ssl_context : Bool → Bool → Outcome Bool
ssl_context false loads = done false
ssl_context true loads = if loads then done true else thrown

module _ (in_dev : Bool) (parse : List ℕ → Option Json) where
  -- main of the broker, up to the call of `server.start`.
  unfoldable pub broker_main : Bool → String → Home → Outcome (Home × Serving)
  broker_main tls_loads served_directory h = do
    let h' = setup_home h
    private_jwt ← load_home_file "broker/jwt/private.key" h'
    public_jwt ← load_home_file "broker/jwt/public.key" h'
    config ← Broker.load_config in_dev parse h'
    ssl ← ssl_context config.ssl tls_loads
    users ← load_users parse h'
    done (
      h',
      record {
        private_jwt = private_jwt;
        users = users;
        public_jwt = public_jwt;
        served_directory = served_directory;
        bind = config.bind;
        ssl = ssl;
      },
    )

  -- main of the publisher, up to `authenticate`: the configuration, and the services made of it.
  unfoldable pub publisher_main : Home → Outcome (Home × Publisher.Config × List Service)
  publisher_main h = do
    let h' = setup_home h
    config ← Publisher.load_config in_dev parse h'
    done (h', config, Publisher.services_of config)

load-setup_home :
    (path : String) (h : Home) → load_home_file path (setup_home h) ≡ load_home_file path h
unfolding load_home_file setup_home
load-setup_home path h = elim (Bool-cases h.exists) [ inl e ↦ simp e refl | inr e ↦ simp e refl ]

-- What must be there for the broker to start, and what it then serves with.
pub record Starts (in_dev : Bool) (parse : List ℕ → Option Json) (tls_loads : Bool)
    (served_directory : String) (h : Home) (x : Serving) : Type 0 where
  pub private_key : load_home_file "broker/jwt/private.key" h ≡ done x.private_jwt
  pub public_key : load_home_file "broker/jwt/public.key" h ≡ done x.public_jwt
  pub config : Broker.load_config in_dev parse h ≡ done (record { bind = x.bind; ssl = x.ssl })
  pub tls : x.ssl ≡ true → tls_loads ≡ true
  pub users : load_users parse h ≡ done x.users
  pub directory : x.served_directory ≡ served_directory

ssl_context-done :
    (asks loads d : Bool) → ssl_context asks loads ≡ done d → (d ≡ asks) × (d ≡ true → loads ≡ true)
ssl_context-done false loads false e = (refl, λ q. cc)
ssl_context-done false loads true e = cc
ssl_context-done true true d e = (cc, λ q. refl)
ssl_context-done true false d e = cc

asked :
    {loads : Bool} (asks : Bool) → (asks ≡ true → loads ≡ true) → ssl_context asks loads ≡ done asks
asked false f = refl
asked true f = rw (f refl) refl

module _ (in_dev : Bool) (parse : List ℕ → Option Json) (tls_loads : Bool)
    (served_directory : String) (h : Home) where
  config-setup_home :
      Broker.load_config in_dev parse (setup_home h) ≡ Broker.load_config in_dev parse h
  unfolding Broker.load_config
  config-setup_home = rw (load-setup_home (Broker.config_path in_dev) h) refl

  users-setup_home : load_users parse (setup_home h) ≡ load_users parse h
  unfolding load_users
  users-setup_home = rw (load-setup_home "broker/users.json" h) refl

  -- What the single calls come to.
  started_with :
      (x : Serving) (a b : List ℕ) (c : Broker.Config) (d : Bool) (u : UsersFile)
      → load_home_file "broker/jwt/private.key" (setup_home h) ≡ done a
      → load_home_file "broker/jwt/public.key" (setup_home h) ≡ done b
      → Broker.load_config in_dev parse (setup_home h) ≡ done c
      → ssl_context c.ssl tls_loads ≡ done d
      → load_users parse (setup_home h) ≡ done u
      → record {
        private_jwt = a;
        users = u;
        public_jwt = b;
        served_directory = served_directory;
        bind = c.bind;
        ssl = d;
      }
        ≡ x
      → Starts in_dev parse tls_loads served_directory h x
  started_with x a b c d u p q r t v e =
      subst (Starts in_dev parse tls_loads served_directory h) e (record {
        private_key = sym (load-setup_home "broker/jwt/private.key" h) ∙ p;
        public_key = sym (load-setup_home "broker/jwt/public.key" h) ∙ q;
        config =
            sym config-setup_home
            ∙ r
            ∙ ap (λ y. done (record { bind = c.bind; ssl = y }))
                (sym (ssl_context-done c.ssl tls_loads d t).0);
        tls = (ssl_context-done c.ssl tls_loads d t).1;
        users = sym users-setup_home ∙ v;
        directory = refl;
      })

  -- The broker's main gets as far as `server.start` exactly if both key files are there, the
  -- configuration and the users are read, and the TLS files can be loaded or are not asked for. The
  -- tokens are then signed with the text of private.key and verified with that of public.key, and
  -- address, port and TLS are those of the configuration.
  pub broker_main-Starts :
      (x : Serving)
      → (broker_main in_dev parse tls_loads served_directory h ≡ done (setup_home h, x))
        ↔ Starts in_dev parse tls_loads served_directory h x
  unfolding broker_main
  broker_main-Starts x = (starts, serves)
    where
      same_serving :
          (y z : Serving)
          → ◌≡◌ {A = Outcome (Home × Serving)} (done (setup_home h, y)) (done (setup_home h, z))
          → y ≡ z
      same_serving y z q = cc

      starts :
          broker_main in_dev parse tls_loads served_directory h ≡ done (setup_home h, x)
          → Starts in_dev parse tls_loads served_directory h x
      starts e = bind-done (load_home_file "broker/jwt/private.key" (setup_home h)) _ _ e λ a p e1.
          bind-done (load_home_file "broker/jwt/public.key" (setup_home h)) _ _ e1 λ b q e2.
            bind-done (Broker.load_config in_dev parse (setup_home h)) _ _ e2 λ c r e3.
              bind-done (ssl_context c.ssl tls_loads) _ _ e3 λ d t e4.
                bind-done (load_users parse (setup_home h)) _ _ e4
                  λ u v e5. started_with x a b c d u p q r t v (same_serving _ _ e5)

      serves :
          Starts in_dev parse tls_loads served_directory h x
          → broker_main in_dev parse tls_loads served_directory h ≡ done (setup_home h, x)
      serves s =
          rw
            (
              load-setup_home "broker/jwt/private.key" h,
              load-setup_home "broker/jwt/public.key" h,
              s.private_key,
              s.public_key,
              config-setup_home,
              s.config,
              users-setup_home,
              s.users,
            )
            (rw (asked x.ssl s.tls)
              (ap (λ y. done (setup_home h, record x { served_directory = y })) (sym s.directory)))
