-- ===== src/Lib.antt =====
-- A model of an event-sourced application: a server stores posts and profiles as domain events in
-- AllSource Core, reads them back by folding, and keeps a read model of all posts in a worker.
--
-- The parts, and the files that model them:
--
-- - Events, from crates/rv2-events: `DomainEvent` and its streams (Events.antt), its JSON form as the
--   serde attributes say it (Events/Codec.antt over the JSON values of Events/Payload.antt), and the
--   wire types with the strict `decode` (Events/Wire.antt).
-- - ApiTypes, from crates/rv2-api-types: the views, the requests and the bounds of a page.
-- - Domain, from crates/rv2-domain: the commands that make an event of a valid request, and the
--   predicates that say who may change what (Domain/Post.antt, Domain/Profile.antt).
-- - AllSource, from crates/rv2-allsource: the folders (AllSource/Folders.antt for folders.rs), the
--   worker's reducer, its flush and its hydration (AllSource/Worker.antt for workers.rs) and the writer
--   (AllSource/Writer.antt for writer.rs).
-- - Shared, from crates/rv2-shared: the roles of a user and their stored text (Shared/Roles.antt for
--   auth.rs), and the configuration of the server (Shared/Config.antt for config.rs).
-- - Api, from apps/api: the errors (Api.antt for infrastructure/error.rs), the handlers of
--   presentation/handlers (Api/Posts.antt, Api/Users.antt, Api/Listing.antt), the middleware of the rate
--   limiter (Api/RateLimit.antt for infrastructure/rate_limit.rs) and the principal of a request
--   (Api/Auth.antt for infrastructure/auth/middleware.rs).
-- - Client, from crates/rv2-client: the requests of every endpoint and what the client makes of an
--   answer.
-- - Ai, from crates/rv2-ai: grounded requests and the check of a model's answer.
-- - Jobs, from crates/rv2-jobs: the offset at which a job starts (Jobs.antt), and the scheduler: its
--   tasks as steps that interleave in any order, and its shutdown (Jobs/Scheduler.antt).
-- - Xtask, from tooling/xtask/src/discovery.rs: what may leave the repository in a release. The
--   encodings (Xtask/Encode.antt), the environment (Xtask/Origin.antt), the text of a page
--   (Xtask/Html.antt), the assets (Xtask/Assets.antt), the files for crawlers (Xtask/Sitemap.antt),
--   `stage` (Xtask/Release.antt), `stage_app` (Xtask/App.antt) and the notice to IndexNow
--   (Xtask/IndexNow.antt), where the two calls of curl are parameters.
-- - Gates, from tooling/xtask/src: what the build tasks read, write and run (Gates/Machine.antt), the
--   gates over the sources (Gates/Scans.antt for main.rs, Gates/Isa.antt for isa.rs), the style sheets
--   (Gates/Styles.antt for styles.rs), and the steps of `ci` and the dispatch of `main`
--   (Gates/Steps.antt).
-- - Ui, from crates/rv2-ui/src: what the tabs, the select, the fields, the navigation and the controls
--   decide from their state and their keys (Ui/Tabs.antt, Ui/Select.antt, Ui/Fields.antt,
--   Ui/Navigation.antt, Ui/Controls.antt).
-- - Views, from apps/app/src/views.rs and routes.rs: the states of the page of posts and its steps, and
--   what the shell does with the answer about the session.
-- - Outbound: Outbound/Email.antt, from crates/rv2-email, and Outbound/Analytics.antt, from
--   crates/rv2-analytics.
-- - Api/Start.antt: how the server comes up and goes down, from apps/api/src/main.rs,
--   infrastructure/{state,jobs,auth/better}.rs and presentation/handlers/health.rs.
-- - Prelude: texts with Rust's `trim` and `split`, maps behind their laws, and the lemmas on lists,
--   options and Boolean tests that the parts share.
-- - Tests: concrete inputs, and the theorems applied to them.
--
-- How they meet: a handler validates a request with Domain, appends the event with the writer, and
-- reads the entity back with the tenant query, which folds the stream with the folder. The worker runs
-- the same folder on one event at a time, seeded with the view that it holds. A handler's actor is the
-- principal that Api/Auth.antt finds, whose roles Shared/Roles.antt reads. `stage` runs every page
-- through Xtask/Html.antt, prunes the assets by what the pages name, and lists the pages' routes.
-- `ci` runs every gate in turn. The page of posts and the shell act on the results of Client.
--
-- How the code corresponds: a function of the source is a definition of the same name; a method of a
-- type is a function on its record; a body that is long has a helper for its `match` or its loop, with
-- the source's text in a comment. A handler is an `Action`: a function of the store to a result and the
-- store behind it. The field `data` of `EventEnvelope` is called `payload`, after the SDK's word for it.
-- Ids and times are numbers, and a text is a sequence of characters.
--
-- What is a parameter: the printed forms of ids and times (`Formats`, with the law that what is printed
-- is read back), how serde reads an array as an event (`read_array`), the store (`Core`, with the law
-- `CoreLaws` on an answer behind an accepted event, which is kept under its normalized type, whatever
-- the normalizer does), the SDK's `query_and_fold`, how the crate http reads a header value as a text,
-- when the browser submits a form, and Unicode's lower case. `Tests` fills the first three with concrete functions.
--
-- The loops over a page (Xtask/Html.antt) take as fuel one more than the number of its characters, and
-- each round leaves a shorter text; the loop that prunes takes one more than the number of assets, and
-- each round but the last reaches one more. The search for the
-- opening tags of a line (Gates/Isa.antt) takes one more than the characters of its code, and each round
-- leaves a shorter text. Every other loop runs over a list or a text. A 64-bit number
-- keeps its wrap-around in Jobs.antt; what the configuration parses is bounded by its type
-- (Prelude/Text/Unsigned.antt); lengths and pages are of texts and lists.
--
-- Of better-auth the model takes the session of a token and the user of a session (`Backend`), of the
-- uuid crate its parser and its name-based identifiers, and of sha2 the digest in the name of a script.
-- Of the client's side the browser's `fetch` and serde's bodies (`Wire`) are parameters.
-- The build tasks are given the files, the environment and the outcome of every process (`Machine`). The
-- template engine, the mail and analytics services, the stack of better-auth and its store are
-- parameters of Outbound and Api/Start, and so is the lower case of a select's search.
-- The environment is a function from names to texts. A release is made from files as values: a page has
-- a text, an asset its bytes, and no HTML file stands below `assets`.
--
-- What is not modelled: the HTTP exchange, the table of routes, the OpenAPI document, the log and the
-- traces, the SDK's checkpoints and timing, the copying of directories and the texts with which a task
-- exits, which are input and output around few decisions; the layout, the motion and the style classes
-- of the user interface and the pages of the public site, which are markup; and two copies of other
-- projects' libraries, crates/better-auth-allsource and vendor/better-auth.
pub mod Prelude
pub mod Events
pub mod ApiTypes
pub mod Domain
pub mod AllSource
pub mod Api
pub mod Shared
pub mod Ai
pub mod Jobs
pub mod Client
pub mod Xtask
pub mod Gates
pub mod Ui
pub mod Views
pub mod Outbound
pub mod Tests
