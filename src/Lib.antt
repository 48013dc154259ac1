-- ===== src/Lib.antt =====
-- QRUCIAL DAO is a platform of code audits on a chain of its own: requestors ask for audits, auditors
-- sign up and are approved by others, report on an audit and challenge reports, and a council
-- decides on the challenges. This library models the web frontend, in
-- frontend/substrate-front-end-template/src, and the two pallets of the chain that its pages call.
-- The pages read the state of the node and of a
-- server (the address /lar), and send extrinsics to the one and requests to the other.
--
-- Common: what the modules share: lists by native numbers, JavaScript strings as lists of UTF-16
--   code units (Text), regular expressions with the language that they accept (Regex), decimal
--   numbers, arrays with holes (Sparse), and lists in which an answer replaces the entry of its
--   key (Upsert).
-- Chain: the account and its signer, the status of an extrinsic and the text of its error, as
--   TxButton.js, hooks/useTxAndPost.js and CreateProposal.js write them, and the effects of a
--   handler as a list.
-- TxButton: substrate-lib/components/TxButton.js: transformParams (Params), the properties that
--   disable the button (Guard), and transaction with the calls it makes (Send).
-- Context: substrate-lib/SubstrateContext.js: the reducer and the provider as a step relation
--   (World), and the gate of App.js in front of the pages (App).
-- Forms: hooks/useFormValidation.js: the expressions, the rules and the state of the hook.
-- Http, TxAndPost, Toast: hooks/useTxAndPost.js and toastContent.js: the answer of the server to a
--   request, a transaction that posts to the server when it is in a block, and its toast.
-- Proposal, Challenges: CreateProposal.js and Challenges.js: the list of challenges, the one that is
--   shown, and the proposal about it.
-- Reports: Reports.js: the audits with reports, the reports with their vulnerabilities, the runs of
--   the effect that fills these (Runs), and what is drawn of them (View).
-- Pool, Approval: AuditorPool.js and ApproveAuditor.js: the cards of the auditors and their order,
--   and the menu of those to approve, with the page that holds it (Approval/Page).
-- Interactor: template-comps/Interactor.js: the form whose fields come from the metadata, the
--   buttons that it has, and the menus with the effects that fill them (Menus).
-- ChallengeReport: ChallengeReportInputs.js and ChallengeReportButton.js: the rows of a challenge,
--   what is drawn of them and the dialog (View).
-- Requests: RequestAudit.js, AuditRequests.js and ReportButton.js: the request of an audit, its
--   taking, and the url of a report.
-- Profile: AuditorForm.js and CancelAccount.js: the profile with its hash, JSON.stringify (Json), and
--   AuditorButton.js (Button).
-- Events: template-comps/Events.js: the feed of the node's events.
-- Accounts: AccountSelector.js and template-comps/Balances.js.
-- Pages: when Home.js, Requestor.js and AuditRequests.js fetch the audits (Refetch), and what
--   AuditorsPage.js (Auditors), CouncilPage.js and ViewChallenge.js (Council, Challenge), AuditList.js
--   with BasicModal.js (AuditList), AuditorProfile.js with Signup.js (Profile) and
--   template-comps/BlockNumber.js (Blocks) show, and the subscriptions that the pages hold
--   (Subscription).
-- Node: the pallets that the frontend reads and calls: qdao-node/audit-pallet (Auditors, with the
--   scores of elo_comp.rs in Elo) and qdao-node/exo-pallet (Reviews and its Calls), and how the
--   runtime puts them together (Runtime). Auditors/Menu and Welcome, Reviews/Listed, Drawn and Council put a page of the
--   frontend on top of the state of the chain, and Scores one pallet on top of the other.
-- Config: config/index.js and the choice of the socket.
-- Examples: inputs at which the theorems apply.
--
-- A component's state is a record and each handler a function of it; what a handler does outside
-- its state is in the list of effects that it gives. Asynchronous code is cut at its waits: the
-- answers of the node and of the server are arguments, in whatever order they come, and a list
-- of answers stands for a run. Where an exception leaves a handler, an effect or none says so.
-- An effect that starts again while answers to it are still to come keeps a state for each run, and
-- an answer names its run. A call of a button that is awaited ends in a step of its own.
-- The libraries are parameters: the look-up of errors, signing, hashing, the metadata, the
-- comparison of names by locale, and the floating-point numbers of the language.
--
-- Everything is structural recursion but the printing of a number, whose fuel is one more than
-- the number, and so more than its digits.
--
-- Where the drawing of a page depends on its state, a view is data: what is drawn, in order, with
-- layout and style left out. The calls of a pallet give the state after them or an error, with which
-- the chain keeps the state before; the scores are counts of units of 2^-31, with their wrap to 64
-- and 32 bits, and the powers of ten of substrate_fixed, the currency and the origins that may close
-- a challenge are parameters.
--
-- Not modelled: the drawing of the other pages, and the small components of template-comps that draw
-- around a TxButton; the rest of the node (qdao-node), which composes libraries of Substrate, the
-- daemon (exosysd), the server and its tools (exotools) and the container files (docker), which are
-- other programs.
pub mod Accounts
pub mod Approval
pub mod Chain
pub mod ChallengeReport
pub mod Challenges
pub mod Common
pub mod Config
pub mod Context
pub mod Events
pub mod Forms
pub mod Http
pub mod Interactor
pub mod Node
pub mod Pages
pub mod Pool
pub mod Profile
pub mod Proposal
pub mod Reports
pub mod Requests
pub mod Toast
pub mod TxAndPost
pub mod TxButton
pub mod Examples
