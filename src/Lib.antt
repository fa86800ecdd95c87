-- ===== src/Lib.antt =====
-- Verification of the core of the AWS browser of bb (internal/bb/awsbrowser).
--
-- The browser resolves a context specification to a verified AWS context, names every query and
-- resource by a sealed key under such a context, reads pages of resources through a guard that
-- checks the identity behind each read, and keeps the pages and the observations of resources in
-- one session store. The parts below follow the source files; each definition has the name of the
-- Go function in lower case (BeginRefresh is begin_refresh), and a Go method takes its receiver as
-- the first argument, behind the platform.
--
-- Base         tests, lists and association lists, which model Go maps; Base/Dict holds their laws
-- Text         Go strings as lists of bytes: TrimSpace, decimals, joinIdentityParts (types.go),
--              Split and Join, and the lemmas on them
-- Url          what types.go uses of net/url, Values.Encode and ParseQuery, and their round trip
-- Errors       the sentinel errors and results
-- Identity     contexts and resource keys: contract.go, identity.go, runtime_factory.go,
--              credentials.go, types.go; Identity/Keys has query keys, Identity/Seal and
--              Identity/Made what seals and constructors guarantee
-- Observation  mapped fields, observations and pages: types.go
-- Session      the session store: store.go. Session/State is its data, Session its operations,
--              Session/Invalidate the invalidations; Entries, Commit, Finish and Trace carry the
--              invariant, Refresh follows a whole refresh, Newest and Merge the observations, Reads has
--              Snapshot and Canonical
-- Guard        guarded reads: read_retry.go, identity.go
-- Registry     verified runtimes by context specification: registry.go; Registry/Runs follows steps
--              of several goroutines in any order
-- Failure      the failure that the query coordinator makes of an error: query.go
-- Coordinator  the query coordinator: query.go. Coordinator/Channel has subscribers and their
--              channels, Subscribe, Flight and Finish the sections under the lock, Run all the
--              goroutines as one sequence of sections. Invariant says what holds between two
--              sections; Sections, Writes, Leaves, Fails, Forget, Renew and Joins that each section
--              keeps it; Safety, Fence, Delivery and Settles draw the theorems
-- Groups       context groups and region sets: context_groups.go, messages.go; Groups/Regions has
--              the round trip of region sets and Groups/Bounds their size
-- Relation     relations and their projection from mapped fields: relation.go, relation_fields.go
-- Snapshot     the snapshots of resources: snapshot/model.go and Collect of snapshot/sync.go. Its
--              children: RefKey (the keys of stored resources), Regions (their regions beside
--              the browser's), Collect (what the collectors' answers become; its child Input has the
--              rows and their validation, the others show that the run is accepted), Relations (the
--              stored relations)
-- Tests        concrete runs, and the theorems applied to them
--
-- How the code is modelled. A method of the store runs under its lock, so it is a function from the
-- store to the new store and its reply; a sequence of calls is a list. A map is an association list
-- whose order stands for no order of the program; where CompleteQuery loops over a map of pages, the
-- order is a parameter that visits each page once (PageOrder). A write to a nil map panics, and the
-- model says so (Run). An error is the sentinel that errors.Is finds in it, so two errors with the
-- same sentinel are one. An instant is a number of nanoseconds since the zero time; a number of a
-- mapped field is a natural number. Region and profile names are matched by functions in place of
-- the regular expressions.
--
-- The coordinator's goroutines share its lock, so what a goroutine does between Lock and Unlock is one
-- function (a section) and a run of the program is a list of sections of the goroutines in any order.
-- Flights are reached by pointers: a flight has a number, its address, and stands in a heap; the map
-- flights has the number. Phase is where the goroutine of run stands. A channel has a capacity of one;
-- a send to a full one blocks with the lock held, and a send to a closed one panics, and the model
-- says so (Outcome). The executor may call its sink at any time and return any error.
--
-- What is a parameter. Platform has arn.Parse of the AWS SDK and strings.ToLower, on which nothing
-- is assumed. Sdk has the answers of AWS to a guarded read, functions of a world that each answer
-- may change. The groups of the JSON document of context groups are an argument, and so are the
-- answers of the collectors of a snapshot, its clock and the error of its context.
--
-- Recursion is structural everywhere but in decimal, whose fuel is the number and one.
--
-- Not modelled: ApplyContextGroups and ELBV2RegionFromDNS, the resolution of runtimes and credentials, the
-- SQLite store of snapshots, the providers that call the SDK, the user interface, and the other tools of bb.
pub mod Base
pub mod Text
pub mod Url
pub mod Errors
pub mod Identity
pub mod Observation
pub mod Session
pub mod Guard
pub mod Groups
pub mod Registry
pub mod Failure
pub mod Coordinator
pub mod Snapshot
pub mod Relation
mod Tests
