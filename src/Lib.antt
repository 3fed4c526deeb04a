-- ===== src/Lib.antt =====
-- Verification of the reward points service: the bounded context reward_points, the ledgers of
-- points that a family keeps for its children; of account_security, the throttle of logins, the
-- second factor and passkeys; and display_devices, the pairing of a display in a home.
--
-- The program. A use case (bounded_contexts/reward_points/application/use_cases) takes a command,
-- asks the access resolver for the caller's membership, lets an entity or a policy of the domain
-- decide, and writes through a repository. An exception that leaves it rolls the transaction
-- back. Here the database is a record of tables (Entities.Db), a use case is a function from the
-- command, the clock's reading `now` and the database to `Result`: an error, or the answer and
-- the new database.
--
-- The other two contexts have tables of their own. The login handler asks the throttle before it
-- looks at a password, and the second factor after; approving a display asks reward_points for the
-- display's account.
--
-- The files, with the code that each models, under bounded_contexts/reward_points if no other
-- context is named:
--   Base        shared names, Boolean tests, lists as rows, integers over native numbers, texts
--   Failure     domain/exceptions.py, and the result of a use case
--   Values      domain/value_objects: the checks of the value objects, and the keys of steps
--               (`IdempotencyKey.for_step` is for_step); Values/Laws has their laws
--   Roles       domain/value_objects/family_role.py
--   Entities    domain/entities and infrastructure/reward_points_models.py: rows and tables
--   Schema      what its foreign keys do when a row is deleted
--   Policy      domain/services/family_access_policy.py, one function for each of its functions
--   Access      application/family_access_resolver.py, and the queries that it makes
--   Ledger      domain/entities/point_transaction.py, domain/services/ledger_statement.py and
--               infrastructure/sql_point_transaction_repository.py. `append` is split where other
--               requests may come in between: append_unless is what follows the look for the key,
--               insert_once the insertion in a savepoint. Children: Sum, History (the invariant),
--               Append, Race
--   Recording   record_point_transaction.py, reverse_point_transaction.py and
--               correct_point_transaction.py of the use cases; children Record, Reverse, Correct
--   Days        domain/services/day_boundary.py, and dates counted in days
--   Bonus       domain/entities/daily_bonus.py, its repository, configure_daily_bonus.py and
--               grant_due_daily_bonuses.py; children Due, Grant and Settled
--   Event       domain/entities/reward_event.py, its repository and, in Event/Manage, the use cases
--               of manage_reward_events.py; children Key, Card (the invariant), Step, Sticking
--               and Peeling
--   Members     infrastructure/sql_family_membership_repository.py, leave_family.py and
--               propose_independence.py; child Leaving
--   Invitations infrastructure/sql_family_invitation_repository.py, invitation_binder.py and
--               accept_invitation.py; children Once and Issue (issue_invitation.py and
--               revoke_invitation.py)
--   Household   create_family.py, dissolve_family.py, rename_family.py, edit_family_rules.py,
--               add_child_membership.py and reorder_members.py of the use cases, and
--               infrastructure/sql_family_repository.py; child Accounts has remove_membership.py,
--               approve_independence.py and infrastructure/sql_account_directory.py, child Owned
--               what goes with a row that is deleted, child Kept the rows that stay, child Roster
--               manage_displays.py, with its child Found
--   Archive     application/family_archive_rules.py and the archive's data; children Import
--               (import_family.py), Write (family_archive_writer.py and export_family.py), and, about
--               the import, Accepted, Agreement, Added and Restored
--   Security    bounded_contexts/account_security. Throttle: login_attempts.py of the entities,
--               throttle_login.py and sql_login_attempt_repository.py, each of whose operations
--               commits by itself; children Table, Sweep and Lock. Totp: totp_secret.py,
--               manage_totp.py, verify_second_factor.py, sql_totp_secret_repository.py and
--               pyotp_totp_authenticator.py; child Enabled. Passkeys: register_passkey.py,
--               authenticate_with_passkey.py, their entities and repositories; children
--               Stored, Challenge and Login
--   Displays    bounded_contexts/display_devices: display_pairing.py, pairing_secrets.py,
--               pairing_rules.py and sql_display_repositories.py; child Pair has the use cases of
--               pair_display.py and open_display_session.py, Code is about the codes that are typed,
--               Runs, Once and Opened about requests one after the other
--   Tests       sample data, runs at fixed inputs, and the theorems at inputs that meet their
--               hypotheses
--
-- Representation. Texts are lists of code points. Identifiers, days and points in time are natural
-- numbers: days count from 0001-01-01, the first of Python's dates, and points in time are
-- microseconds since its midnight, on the wall clock of UTC. A table lists its rows, the newest
-- first. Its identifiers come from a counter, as those of an autoincrement column do. Amounts are
-- integers without bound; PointAmount's bound is checked where the code checks it.
--
-- Fuel. Only `decimal`, the digits of a number, runs on fuel, n + 1 for the number n, which has
-- no more digits; that a number is read back from its digits shows that it is enough. The five
-- attempts at a display's code are the source's own. All else is structural recursion.
--
-- Parameters. The time zone (TimeZone) and, for invitation codes, `str.upper` and the digest
-- (Hashing) are arguments; so are `str.lower` for the throttle, `pyotp` and `str.isdigit` for the
-- second factor (TotpLibrary), the WebAuthn library for passkeys (RelyingParty), `str.upper`,
-- `str.isalnum` and SHA-256 for displays (Codes), what `secrets` draws and, where a display is
-- paired, how reward_points makes its account (`enroll`; Household.Roster has what it does).
--
-- What is not modelled. Rows are kept as the entities that the repositories make of them, so that
-- the checks which run again on loading are not repeated: the invariants IsValid and IsDeck say
-- that they pass. Deletions follow the foreign keys of reward_points_models.py, but for those
-- from one row of a ledger to another, whose rows go together; of what goes with an account in the
-- other contexts, Displays.Pair has the rows of displays. Transactions of the database run one
-- after the other, except for the race of `append`. Of an account there are its name and its
-- roles. The views of a family, passwords, the lists of displays, the identity federation, the
-- HTTP layer and the frontend are left out.
pub mod Base
pub mod Failure
pub mod Values
pub mod Roles
pub mod Entities
pub mod Schema
pub mod Policy
pub mod Access
pub mod Ledger
pub mod Recording
pub mod Days
pub mod Bonus
pub mod Event
pub mod Members
pub mod Invitations
pub mod Security
pub mod Displays
pub mod Household
pub mod Archive
pub mod Tests
