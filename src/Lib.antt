-- ===== src/Lib.antt =====
-- The storage service: a Django application that keeps the files of companies behind access
-- grants, quotas and share links. Its parts, as this library has them:
--
-- Text (Text.antt, Text/) is Python's str as the list of its code points, with strip, startswith,
-- endswith, split and join on a slash, and str of a natural number.
--
-- Storage.Models has the tables of apps/storage/models.py, one record for each row, in the record
-- Db, and the principal of apps/authapi/principal.py that a token carries. A UUID or an integer
-- key is a number and a time is a number; the size columns are natural numbers, since the code
-- clamps them at 0, and the width of a BigIntegerField, which no size of a file comes near, is
-- left out. The columns created_at and updated_at are left out.
--
-- Storage.Paths has _normalize_path, _folder_matches and _ancestor_folder_prefixes of
-- apps/storage/access.py, folder_placeholder_path and folder_path_from_placeholder of models.py,
-- and safe_object_path of mime.py.
--
-- Storage.Access is evaluate_access of apps/storage/access.py with all it calls. Storage.Inherited
-- has the grants on the folders above a path, and Storage.Defaults the private default of a new
-- file or folder. Storage.Resolve goes from the names in a request to a bucket or an object, and
-- raises what the code raises (Storage.Errors: StorageError as status and code, ValueError, TypeError).
--
-- Storage.Quotas is apps/storage/quotas.py, and Storage.Shares apps/storage/shares.py with
-- ObjectShareLink.is_active.
--
-- Storage.Mime has the MIME tests of apps/storage/mime.py, Storage.Objects upload_object and
-- delete_object of apps/storage/services.py, and Storage.Folders its requests on several objects:
-- delete_paths, delete_under_prefix, empty_bucket, move_object, copy_object, summarize_prefix and
-- rename_folder (Folders.Rename). What they call of the blob store, MD5 and mimetypes is the
-- record Platform; a failure of the blob store is an exception, and transaction.atomic puts the
-- tables back, not the blobs.
--
-- Storage.Listing is list_objects and resolve_item_by_id of apps/storage/services.py.
-- Storage.Grants is apps/storage/grants.py, with ensure_folder_marker of services.py: a request is
-- read, the right over its resource and the folders above it are tested, and the grant is added.
--
-- Json.antt is a JSON value as Python holds it. Actions.Models has the tables of
-- apps/actions/models.py that the outbox needs, in the record ActionDb, and the settings.
--
-- Actions.Emit is emit_event of apps/actions/emit.py, with envelope.py and event_log.py: an event is
-- logged and becomes rows of the outbox, without the secrets that Actions.Redaction
-- (secret_redaction.py) removes. Actions.RuleConfig is rule_config.py.
--
-- Actions.Outbox is apps/actions/delivery.py. deliver_outbox_row is two transactions with the request
-- between them: begin_delivery reads the row, complete_delivery writes the result. Outbox.Claim has
-- claim_next_pending_outbox and the view of admin_api_views.py that queues a delivery again,
-- Outbox.Interleavings the step relation in which any number of workers take turns, one transaction
-- at a time, and Outbox.Batch retry_pending_webhooks with one worker. What the attempt sends, and what
-- an answer means, is in Actions.Handlers (handlers/webhook.py), Actions.Email (email_service.py) and
-- Actions.Retry (webhook_retry.py), and the address it goes to in Actions.Ssrf (ssrf.py).
--
-- Actions.Retention is the purge of retention.py, Actions.CompanyDeletion the flags, passes and
-- sweeps of company_deletion.py, and Actions.TaskLock the lock of config/task_lock.py, with the step
-- relation of its runs and the clock. TaskLock.Refines has a lease, the abstract view of that lock.
--
-- HTTP, DNS, the parsers of URLs, addresses and dates, HMAC, json.dumps and the folding of letters are
-- arguments of the definitions that use them (the records Client, Network, Python and Recipients).
--
-- A call that reads and writes the database and may raise is a function from Db to an outcome and
-- a Db (Prelude.Outcome); the calls of a service are bound in the order of the code. A request is
-- one step: the locks and transactions of the database make redeem_share_link one. timezone.now(),
-- the identifiers of new rows and the random tokens are arguments. A query is a filter of a table
-- in the table's order; an order_by that only a listing shows is left out. Loops over rows and
-- segments are structural recursion. There is fuel in three places: in str, the number plus one, which
-- is at least the number of its digits; in retry_loop, the batch plus one, since each turn but the last
-- processes a row; and in delete_in_batches, the rows of the table plus one, since each turn but the
-- last deletes a row.
--
-- Not modelled: the listings of grants.py, the receivers of the signals that an upload sends, the
-- deletion of a company's files (apps/storage/company_deletion.py), the signature of the delivery
-- assertion, retry_pending_webhooks with a pool of threads, the delivery after a commit, the purge
-- of old job runs, scheduled jobs, the parsing and checking of tokens in apps/authapi, WebDAV, the
-- registry of handlers, and views, serializers, statistics, settings and logging, which parse and
-- print.
pub mod Prelude
pub mod Text
pub mod Json
pub mod Storage
pub mod Actions
