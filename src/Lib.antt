-- ===== src/Lib.antt =====
-- A model of the core of listnun, a self-hosted newsletter and mailing list manager written in Go,
-- with the theorems that make it correct.
--
-- listnun keeps subscribers, lists and campaigns in PostgreSQL. This library follows the code that
-- decides, between the HTTP handlers and the SQL: the tenant of a request, imports, the scan over
-- tenants and the sending of campaigns, permissions and tokens, segments, webhooks, bounces, batches
-- of addresses to validate, the usage meter and what the campaign manager keeps by tenant, with one
-- handler, the statements that change a campaign's status, next-campaigns, those of
-- queries/webhooks.sql that change deliveries, and record-bounce.
--
-- Prelude shares the Boolean tests, the list lemmas and Go's strings, which are lists of bytes. The
-- other files, and the code that they follow:
--
--   Auth               a user's permissions (internal/auth/models.go) and how they are read from the
--                      roles (setupUserFields in internal/core/users.go).
--   Importer.Status    the status that the importer shares (internal/subimporter/importer.go): Status,
--                      addProblem, setStatus, isDone, the counters and sendNotif's value.
--   Importer.Types     subscribers, columns and the session's options, and `Std`, the functions that
--                      the validation takes from Go's Unicode tables, net/mail, encoding/json and
--                      the title caser, as parameters.
--   Importer.Domains   makeDomainMap, checkInList and SanitizeEmail, with internal/utils/utils.go.
--   Importer.Columns   AttributeKey, GuessColumn, newColumnMap, legacyColumnMap
--                      (internal/subimporter/inspect.go).
--   Importer.Rows      ValidateFields and readRow. A cell out of range and a write to a nil
--                      map are Go's panics.
--   Importer.Session   Session.Start: the queue is the list of rows that are sent before the channel
--                      is closed, each with the answers of the database while it is processed.
--   Importer.Load      LoadCSV, countCSVRows, flushWindow: the file is the list of what encoding/csv
--                      reads, and `signal` says at which passes a stop request waits.
--   Importer.Control   New, NewSession and Stop.
--   Importer.Check     Check, the dry run.
--   Campaign.Status    the requests that change a campaign's status: Core.UpdateCampaignStatus
--                      (internal/core/campaigns.go), the handler UpdateCampaignStatus
--                      (cmd/campaigns.go) and the statements of queries/campaigns.sql they run.
--   Campaign.Pipe      the pipe of a campaign: newPipe, NextSubscribers, OnError, Stop and cleanup
--                      (internal/manager/pipe.go). Machine has Manager.Run, the workers, StopCampaign
--                      and getCurrentCampaigns (internal/manager/manager.go) beside it, where a list
--                      of atomic steps is an interleaving; Moves gives the steps as a relation.
--   Campaign.Sliding   the sliding window of NextSubscribers.
--   Campaign.Scan      one tick of scanCampaigns over the tenants, with getCurrentCampaigns and the
--                      statement next-campaigns.
--   Manager            what the manager keeps by tenant: the template cache, the messengers, the root
--                      URLs and the tracked links (internal/manager/manager.go).
--   Tokens             the one-time tokens (internal/tmptokens/tmptokens.go); Views is what a token means
--                      at a time, which the calls implement.
--   Replies            the signed tokens of reply addresses (internal/replies/token.go), with the
--                      varints and base32 they use; Coding has the round trips of those.
--   Webhooks           the deliveries of webhooks (internal/webhooks/webhooks.go) with the rows of
--                      queries/webhooks.sql; Worker is one pass, Ending many of them, Shared the
--                      interleaved workers of several instances with their leases, Address the
--                      addresses that may be called.
--   Segments           the SQL of a segment (internal/segments/segments.go): Closed shows that no
--                      value leaves its place in it, Valid which segments compile, Like what the
--                      `contains` conditions match.
--   Usage              the usage meter (internal/usage/usage.go), whose counts tenants are billed by.
--   Bounces            the recording of bounces (internal/core/bounces.go, queries/bounces.sql) with
--                      the action that a number of them brings; Isolation is about other tenants.
--   Tenant             the tenant of a request (internal/tenant/resolve.go): Hosts is about the host's
--                      name, Serving about the answers.
--   Scrub              the validation of a list's addresses in batches (internal/scrub/batching.go,
--                      cmd/scrub_batch.go).
--
-- A Go function that changes a value returns the new value here. Code that is not in the
-- repository (the database, the clock, random sources, other services) is a parameter: a
-- function, a list of answers, or a record of such. Every loop runs over a list and needs no
-- fuel, but for four: the varints of Replies, whose fuel is the ten bytes that 64 bits need; the
-- digits of a number in Segments, of which 20 are enough below 2 ^ 64; the chunks of Scrub, of which
-- there are no more than addresses; and the attempts listed in Webhooks.Backoff, of which there are
-- eight. Go ints that count rows or messages stay far below 2 ^ 63 and are natural numbers. Log lines
-- are not modelled.
--
-- Not modelled: other SQL, HTTP routing, HTML templates, file and network I/O, and the parts of the
-- program that only pass values on.
pub mod Prelude
pub mod Auth
pub mod Bounces
pub mod Campaign
pub mod Importer
pub mod Manager
pub mod Replies
pub mod Scrub
pub mod Segments
pub mod Tenant
pub mod Tokens
pub mod Usage
pub mod Webhooks
