-- ===== src/Lib.antt =====
-- The data-centric security of the cinema backend in Go, under backend-go/internal: what a caller
-- may do, which fields of a film, a hall or a spectator the caller is shown, and what is encrypted,
-- stored and audited on the way.
--
-- The parts and how they interact. A request reaches a handler through a middleware, which judges
-- its token; the handler asks a service, and the service asks the enforcer. The enforcer has the
-- information point build a policy input (from a store of field classifications, through a cache),
-- has the decision point decide on it (through another cache), and has an applier show each field as
-- the decision says, with the key management service. The settings, changed at run time, turn the
-- whole on and off and set the level of caching. What is stored goes to repositories in memory or in
-- PostgreSQL.
--
-- Types      backend-go/internal/dcs/types/types.go: the records Principal, Resource, Decision and
--            so on, with the fields of the source.
-- Runtime    dcs/runtime/settings.go: New, Set, DcsEnabled; Runtime.Modes has the theorems.
-- Config     dcs/config/config.go: the types and Defaults.
-- Cache      dcs/cache/ttl.go: NewTTL, Get, Set, Clear over an association list.
-- World      dcs/cache/manager.go: the state that the requests share, with the level test.
-- Pdp        dcs/pdp/engine.go: Evaluate, decide, DecisionHash, decisionCacheKey. Allows is about the
--            verdict, Actions about the fields, Cached and Confusion about the cache, Hashing about
--            the order of maps.
-- Pip        dcs/pip: Provider.Build, the static store and the database store.
-- Pep        dcs/pep: the masks, the film applier and the spectator applier.
-- Kms        dcs/kms/crypto.go and local.go: normalisation and the local client. Kms.Vault is
--            vault_transit.go: Encrypt, Decrypt, GetPepper and ComputeLookup with their caches.
-- Enforcer   dcs/enforcer: each Evaluate and Enforce method.
-- Repo       repository/memory/film_repo.go, hall_repo.go and spectator_repo.go: the films, halls and
--            spectators in memory. Repo.Postgres is repository/postgres: Sql has the statements as
--            syntax trees and the pool, Scan the scanning of a row, Meaning what a database that
--            runs the statements is relied on for (IsPostgres), Schema the tables of
--            infra/postgres/init/01_init.sql, and each repository has a module.
-- Service    service: System is the state that a request can change, with the writing of the two
--            logs; Films is film_workflow.go, Halls is hall_service.go, Spectators is
--            spectator_service.go, and Logs is audit_service.go and perf_service.go. Halls.Contract
--            is what the hall service may expect of its store, in memory (Repo.Halls.Meets) and in
--            PostgreSQL (Repo.Postgres.Halls.Meets); Halls.Held is about the service over any such
--            store.
-- Auth       auth/jwt.go (Jwt) and service/auth_service.go (Login).
-- Http       transport/http: Exchange (requests, principals, answers), Parameters, Middleware, the
--            handlers in Films, Halls, Spectators, Logs and Security, and the table of Routes.
-- Environment   config/config.go: Load over an environment.
-- Observability   observability/perf/context.go: the sums of the measured times.
-- Bootstrap  bootstrap/http.go: the infrastructure and the pipeline; Memory and Database have the
--            services of a process without and with a database, and Start what holds from the start
--            on.
-- Server     server/server.go: the choice of a database, and what is logged of its URL.
-- Grpc       transport/grpc/interceptors.go: the identifier of a request.
-- Action, Order, Strings, Strconv and Common hold what the parts share: an action on a state that may
-- fail, Go's sort.Strings, the functions of strings and strconv that are used, maps and texts.
-- Tests      concrete requests against a small deployment, and against a database that keeps its
--            tables as lists of rows (Engine).
--
-- How it is modelled. A Go map is an association list with one entry for each key; where Go visits a
-- map in a random order, the order is an argument, or the result is proved not to depend on it. A
-- lock makes each method one step. A method that reads and changes the shared state is a function
-- from the state to a result and a state, and its error is a value. The n-th reading of the clock
-- and the entry that a full cache evicts come from an oracle. Texts that are cut, masked or encrypted
-- are lists of bytes, names are native strings. Loops go over finite lists by structural recursion:
-- no fuel is needed.
--
-- Requests are run one after the other: the two readings of DcsEnabled in Evaluate are one step, and a
-- change of the settings between them is not considered.
--
-- Texts that go through JSON or into a TEXT column are taken to be UTF-8; an integer of the details of
-- an audit entry is read back as a float64.
--
-- Errors are told apart as errors.Is does; the texts that wrapping adds to an error are left out.
--
-- Parameters, since their code is not here: SHA-256 over JSON (of_decision, of_key), HMAC-SHA256,
-- base64, JSON bodies, google/uuid, golang-jwt, bcrypt, the exchange with Vault, the database behind
-- jackc/pgx (Pool) and its UUIDs (Uuids), the metadata of gRPC, and the choice of a route by net/http.
-- A theorem that relies on one says so by a hypothesis. Of a database, IsPostgres says that a query
-- answers with the rows of the table that meet its conditions, no more than its limit and, without
-- one, all of them, and that an insertion that succeeds adds one row with the given values and
-- keeps the others. The order of the rows is not relied on.
--
-- Not modelled: the connections to Vault and to the database, the loading of the policy file, the
-- insertion of a film with labels and a time of its own (CreateFromDomain, for seeds), the checks,
-- keys and defaults of the tables, the listeners, the headers of a response and the log of the
-- process but for the URL of the database, the Python backend and the front end. Letters and blanks of other alphabets than ASCII keep their case in the
-- model of ToLower and ToUpper; the paths, parameters and headers of a request are ASCII.
pub mod Common
pub mod Order
pub mod Strings
pub mod Strconv
pub mod Action
pub mod Types
pub mod Runtime
pub mod Config
pub mod Environment
pub mod Cache
pub mod World
pub mod Pdp
pub mod Pep
pub mod Pip
pub mod Kms
pub mod Enforcer
pub mod Repo
pub mod Service
pub mod Auth
pub mod Http
pub mod Grpc
pub mod Observability
pub mod Bootstrap
pub mod Server
pub mod Tests
