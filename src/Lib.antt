-- ===== src/Lib.antt =====
-- birdy: a model of the parts of birdy, the control plane for the BIRD routing daemon, that decide what
-- reaches the router and what the operator is told, with theorems on their correctness.
--
-- The program renders bird.conf from its own model of peers and policies, shows how it differs from
-- what is on disk, applies it under a safety timeout, and polls BIRD for events and alerts.
--
--   Common (Tests, Lists, Numbers, Strings, Maps, Distinct, Decimal): Boolean tests, lists, maps, Go's decimal
--     numbers and its functions on strings, over native numbers. Decimal is a proof.
--   Files: internal/render/files.go. `files` is `Files`, `logical` is `FileSet.Logical`.
--     Files/Logical and Files/Entry are proofs.
--   Diff: internal/render/diff.go. `lcs_script` is `lcsScript` (its table is `lengths`, its three loops
--     are `walk`); Diff/Hunks has `hunks`, `buildHunk`, `Stat` and `Diff`, Diff/Sections `SectionDiff`.
--     Lcs, Script, Optimal, Context, Count, Shown, Empty and Attribution are proofs.
--   Apply: internal/web/apply.go and internal/store/configversions.go. Apply/World is the state of a
--     server (files, backups, versions, commands sent to BIRD) and the monad of its steps; Apply/Disk
--     the file operations; Apply/Includes `birdyIncludes`; Apply/Versions the table of config versions; Apply/Handlers the apply
--     itself, one definition for each block that ends in its own response; Apply/Requests the four
--     endpoints. The other modules are proofs.
--   Notify: internal/notify/notify.go, with the filter of internal/store/alerts.go and the kinds of
--     internal/store/events.go: throttle, queue, choice of destinations.
--   Pages: internal/web/pagination.go. Slices, Links, Next and Urls are proofs.
--   Poller: internal/poller/poller.go. Poller/State is its state, Poller/Step one poll as a function
--     of the answers that it gets, Poller/Sampling `maybeSample`, Poller/Edges proofs.
--   Birdc: internal/birdc, the client of BIRD's control socket. Birdc is the framing of replies
--     (`read_frame` is `readFrame`), Birdc/Client the commands on the shared connection
--     (`command_locked` and `command`), Birdc/Queries the methods of queries.go, Birdc/Rows, Detail,
--     Counts, Routes and Attributes the parsers of parser.go and the outcome of configure.go,
--     Birdc/Types the records of types.go. Birdc/Stream is `streamRoutes` of stream.go, its callback a
--     function on the state that it keeps, and Birdc/Paging `paginate` with the paged queries.
--     Framing, Async, Retry, Columns, Communities, ReadOnly and the modules below Stream and Paging
--     are proofs.
--   Drift: internal/web/drift.go, on the World of Apply. Alarms and Once are proofs.
--   Lint: internal/render/lint.go. Lint is `foldByTemplate`, Lint/Model the model that the rules read,
--     Lint/Sessions the rules on an external session, Lint/Rules the others and `Lint`. The other
--     modules are proofs.
--   Communities: internal/store/communities.go. Ranges is a proof.
--   Sets: the tables of internal/store/prefixsets.go and assets.go, with the monad of their steps;
--     Sets/Prefixes and Sets/Asns are the statements of each. The others are proofs.
--   Irr: internal/web/irr_refresh.go, on the tables of Sets; Irr/Answers is internal/irr/irr.go. The
--     other modules are proofs.
--   Access: internal/web/access.go, the login limiter; Access/Sessions has internal/store/sessions.go,
--     the handlers of internal/web/auth.go and `requireAuth` of internal/web/middleware.go. The other
--     modules are proofs.
--   Updates: internal/updatecheck/updatecheck.go; GitHub's answer is an argument. Newer and Kept are
--     proofs.
--   Examples: runs on concrete inputs.
--
-- The pipeline takes the file set that Files makes; the alerts of Poller are what Notify is given.
-- Poller takes the values that the parsers of Birdc give. Drift reads what Apply has written. Birdc/Stream
-- reads its lines by the parsers of Birdc. Lint reads the sets of Sets, which Irr keeps fresh, and the
-- references of Communities.
--
-- Bounds and fuel: `segments` runs on the length of the script as fuel, and each round drops at least
-- one edit; `itoa` has fuel for 20 digits, and an `int` has 19 at most; the loop over communities runs
-- on the length of its text, and each round takes a byte at least. All else is structural.
--
-- Conventions. A request of Apply runs under the apply lock, so requests are a sequence. Any call of
-- the file system or the database may fail, as a list of faults says; BIRD's answers are a list, too.
-- A write of a file is atomic. The clock stands still during a request and during a poll. Strings are
-- lists of bytes, `int` is unbounded where the code does not parse it. SHA-256, JSON,
-- `bird -p` and the names of backups are parameters, the record Env;
-- what a theorem needs of them is among its hypotheses.
--
-- In Access the SQL comparison of times as text, bcrypt and random tokens are parameters, and a map's
-- order of iteration is that of its list. In Birdc the texts that `net` takes for addresses are one. In
-- Irr what bgpq4 prints, read as JSON, is one, and in Lint the texts of the findings and the addresses
-- that `netip` takes for link-local. A transaction of Sets that fails leaves the tables as they were;
-- foreign keys, which only refuse more, are left out.
--
-- Not modelled: the rendering of the sections (text output), deadlines and cancellation on BIRD's
-- socket, the other tables of the store and the validation of their forms, web forms and templates,
-- tokens of instances, the other clients of network services, the delivery of alerts over HTTP and SMTP,
-- the command line.
pub mod Common
pub mod Files
pub mod Apply
pub mod Drift
pub mod Diff
pub mod Lint
pub mod Notify
pub mod Pages
pub mod Birdc
pub mod Poller
pub mod Access
pub mod Updates
pub mod Sets
pub mod Irr
pub mod Communities
pub mod Examples
