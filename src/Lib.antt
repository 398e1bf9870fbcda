-- ===== src/Lib.antt =====
-- Verification of the SRKR Coding Club backend (a Django application): its hackathon module, and the
-- formulas and the conditions of its forms.
--
-- Most of what is modelled is apps/hackathons: how a team is formed, gets its place, pays and is given
-- up. Of apps/forms/validation, which stands apart from it, two parts are: formula.py, the calculator of
-- form questions, and conditional.py, which decides which questions of a form show.
-- The database of one hackathon is the record `Db` (Hackathon/Monad.antt): a list for each table, in
-- primary-key order, the clock, and the list of effects (audit records, emails, notices) that a request
-- leaves. A request is an `Action`, a function from the rows to an error or to a value and new rows;
-- an error carries no rows, since each entry point runs in `transaction.atomic` and is rolled back.
-- Queries are the functions of Common/Rows.antt (filter, exists, first, update, delete, create).
-- Rows are locked before they change, so requests are taken one after the other.
--
-- The files, and what they model:
--   Common, Common/*            tables as lists and their laws; Boolean tests; the functions on texts
--                               (Text); lower-casing, float, the e-mail validator and the object store,
--                               which are the arguments `Python` of the model (Builtins)
--   Hackathon/Model             apps/hackathons/models.py: rows, choices and status tests
--   Hackathon/Monad, Outcome    requests, errors (HackathonError codes), effects, postconditions
--   Hackathon/Store             apps/hackathons/access.py and the queries that services.py shares
--   Hackathon/Registration      apps/hackathons/registration.py: check_eligibility, clean_answers
--                               (Answers), limits (Capacity); theorems in Reads and Validity
--   Hackathon/Team              apps/hackathons/services.py, TeamService: guards, _recompute_status and
--                               _admit (Team), create_team (Formation, Problem), invites (Invites),
--                               remove_member, leave_team, transfer_leadership (Members),
--                               admin_add_member and admin_set_status (Admin); theorems in Status,
--                               Admission, Creation, Leadership and Slots
--   Hackathon/Waitlist          apps/hackathons/services.py, WaitlistService; theorems in Capacity,
--                               Fairness and Precedence, on the order of the queue in Order
--   Hackathon/Withdrawals       apps/hackathons/withdrawals.py; theorems in Creation and Leaving
--   Hackathon/Payments          apps/hackathons/payments.py; theorems in Invariant, Requests, Review
--                               and Stranded
--   Hackathon/Staff             apps/hackathons/judging.py, StaffService, and my_permissions of access.py;
--                               theorems in Grants, Keys and Delegation
--   Hackathon/Rounds            apps/hackathons/round_rules.py: `evaluate_rule` is evaluate; theorems in
--                               Shortlist. Decisions: RoundService of services.py (decide,
--                               publish_results, unpublish_results, auto_shortlist); theorems in
--                               Decisions/Limit and Decisions/Selection. Examples in Tests
--   Hackathon/Judging           apps/hackathons/round_judging.py: _fill and coverage; theorems in Sharing
--   Hackathon/Leaderboard       apps/hackathons/judging.py: leaderboard and idea_leaderboard; theorems in
--                               Ranks
--   Hackathon/CheckIn           apps/hackathons/check_in_sessions.py: sync, delete and window_state, and
--                               main_check_in_session of models.py; theorems in Retained
--   Hackathon/Tests             a concrete hackathon on which every theorem is applied
--   Forms/Formula               apps/forms/validation/formula.py: `run` is a call of _Parser.expression,
--                               term or factor (more_terms and more_factors are the loops of the first
--                               two), close its bracket, parse_all _Parser.parse, parse the function
--                               parse on tokens, node_value _value; theorems in Leaves, Termination and
--                               Locality, examples in Forms/Tests
--   Forms/Conditions            apps/forms/validation/conditional.py: evaluate_operator; _evaluate_node and
--                               evaluate_tree (Trees); the answers a condition names (Trees/Watching)
--   Forms/Layout                compute_layout of the same file: the fields (Layout), split_pages and
--                               _skipped_pages (Pages), the loop over conditions (Passes), the loop over
--                               routes and the value-style actions (Compute); theorems in Pages/Walk,
--                               Passes/Convergence, Outcome and Unique, Compute/Routes and Grants;
--                               examples in Layout/Tests
--
-- A time is a number of seconds, the number of a row its primary key, and a score (and the value of a
-- round rule) a number of hundredths, since the program rounds scores to two decimals. Loops run over lists. Only
-- the parser of formulas takes fuel: three nested calls for each token and three more, since a call
-- either takes a token or is one of three in a row (Forms/Formula/Termination). `Decimals` is Python's
-- decimal arithmetic, an argument. The loops of a form's layout take the bounds of the code as fuel:
-- fields + 1 passes, pages + 1 routes, and one turn of the walk for each page. `Reading` is what the
-- operators use of values.py and of Python (numbers, dates, str.lower, text order, re), an argument. The limits of the code (two teams and ten minutes for a person, 1000
-- characters for an answer, 300 for a reason, 60 for a transaction id, 20 nested brackets and 30
-- questions for a formula) stand as constants beside their use.
--
-- Not modelled: HTTP views and serializers, the wording of messages, the delivery of mail and notices,
-- uploads of files, celebration cards, TeamService.update_team, the rest of
-- rounds and judging, adding and editing check-in sessions, scans, the splitting
-- of a formula into tokens, the other stages of form validation, and the other applications of the repository.
pub mod Common
pub mod Forms
pub mod Hackathon
