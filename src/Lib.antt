-- ===== src/Lib.antt =====
-- The document service: an API server that issues upload and download links for documents in an
-- object store, a scanner that sends uploaded objects to clamd, and PostgreSQL, which both share.
--
-- The parts, and the files that model them:
--
--   internal/documents        Documents and its children. Types holds the types of the package and
--                             what the service is given (party directory, object store, database,
--                             run time); Tables the two tables of internal/database/migrations and
--                             the statements that are run on them; Exec the actions; Access
--                             Service.get, getIdempotent and checkPaymentAccess; Create
--                             Service.Create; Upload Complete, UploadContent, RecordScan and
--                             Download; Evidence the methods of evidence.go, bank_account.go and
--                             case.go; Audit the audit statements.
--   cmd/scanner               Scanner: processOne.
--   internal/malware          Clamd: Clamd.Scan over a connection that is a parameter.
--   internal/auth             Auth: OIDCVerifier.Verify, and from internal/httpserver/server.go
--                             authenticate, scope and value.
--   internal/party            PartyClient: Client.Exists.
--   internal/config           Config: Load.
--   internal/httpserver       Http: the document routes of server.go and evidence.go. Delegated: the
--                             routes of payment_access.go (Payment), bank_account_access.go
--                             (BankAccount) and case_access.go (Case), for which another service
--                             decides about access; it is a parameter.
--   internal/objectstore      Objectstore: the Store over an S3 client that is a parameter; its
--                             operations fill the interface Objects of Documents.Types.
--   cmd/api                   Startup: main up to the listening server, with party.New, auth.New,
--                             objectstore.New and documents.New.
--   the whole                 System: any sequence of calls of the methods, requests of the HTTP routes
--                             and scanner cycles.
--
-- An action takes a world (the tables, the number of calls made so far, and the time at which an open
-- transaction began) to a result and a world. A statement takes effect as a whole; which statements
-- and commits fail is an arbitrary function of the number of calls. The clock, the object store, the
-- party directory and the virus scanner are arbitrary functions too. A transaction restores the tables
-- when its body fails; a commit that fails restores them or takes effect all the same, as another
-- arbitrary function says. Methods and requests are interleaved whole; Documents.Changes lists the
-- changes that single statements make.
--
-- The checks and lemmas of a method stand in child modules named for what they prove, with the
-- conditions that the theorems state, written apart from the program's tests; Documents.Changes
-- and Documents.Lifecycle hold the step relation of the tables, and its invariants; Documents.Phases
-- is an abstract machine for one document (phases and the number of scans begun), with which the
-- statements are matched.
--
-- No function runs on fuel except the reader of clamd's protocol in Clamd.Framing, which states a
-- result of the sender and takes one unit for each chunk.
--
-- Texts are sequences of Unicode scalar values, and `len` counts the bytes of their UTF-8. Time is in
-- microseconds. Case conversion beyond ASCII, SHA-256, JSON, go-oidc, OAuth, net/url, the HTTP client,
-- S3 and the TCP connection are parameters.
--
-- Not modelled: the migrations' runner (internal/database, cmd/migrate), the signals and the shutdown
-- of the main functions, the health routes, response headers and logs, which are input and output.
-- A text that is longer than its column is refused, also where only spaces at its end are too many,
-- which PostgreSQL would cut off.
pub mod Common
pub mod Text
pub mod Documents
pub mod Scanner
pub mod Clamd
pub mod Auth
pub mod PartyClient
pub mod Config
pub mod Http
pub mod Delegated
pub mod Objectstore
pub mod Startup
pub mod System
mod Tests
