-- ===== src/Lib.antt =====
-- LandChain: a land registry whose ownership records are Poseidon commitments in a Merkle tree.
-- This library models the server (apps/server/src), with its HTTP interface, the part of the client
-- (apps/client/src) that makes commitments and witnesses, and the circuits, and proves what keeps
-- the registry sound.
--
-- The program. Users request the registration of lands; an authority approves or rejects. An
-- approved land takes a leaf of a tree of depth 20, whose root is recorded and anchored on a
-- chain together with a Groth16 proof that one leaf changed. An owner lists a land for sale, a
-- buyer challenges the owner, the owner answers with a zero-knowledge proof bound to the land, the
-- root and the buyer's nonce, the buyer verifies it and buys; the land then leaves the tree and
-- waits for the authority again.
--
-- The server answers requests behind three guards: a token, a role, and a validator of the body.
-- The owner's secret stays in the browser, which derives the commitments from it and builds the
-- witnesses of the proofs from the land that the server stores.
--
-- The files, and the code they are about (paths under apps/server/src, where no other is named):
--   Prelude        library names, equality tests, lists over the native numbers, and the parts of
--                  the JavaScript library in use: decimal and hexadecimal texts, BigInt, toLowerCase
--   Errors, Json   utils/errors.util.ts, and request values of unknown shape
--   Externals      everything that is called and not implemented here, as one record: keccak256,
--                  Poseidon, SHA-256, AES-256-GCM, random bytes, the clock, snarkjs and its
--                  artifacts, the contract's methods, the pinning service and the gateway
--   Field          utils/field.util.ts, utils/hash.util.ts, services/poseidon.service.ts
--   Merkle         services/merkle.service.ts: buildTree, pathFor, computeRootFromPath over any hash.
--                  Node and Path describe the tree by recursion on its height; Binding and Laws
--                  compare the loops with that description
--   Db, Action     models/*.ts, constants/roles.ts and the queries; a handler is a function from a
--                  database to a result and a database, so what was written before a throw stays.
--                  Action/Keeps and Action/Maintains say what a handler leaves alone
--   Zk, Chain      services/zk.service.ts, services/blockchain.service.ts
--   Registry       services/merkle.service.ts: nextLeafIndex, rebuildRegistryTree,
--                  proveRootTransition; the invariant (Invariant), single-leaf changes (Transition)
--   DeedCrypto, Ipfs   utils/deedCrypto.util.ts, services/ipfs.service.ts
--   Land           services/land.service.ts, with the queries in Land/Listing
--   Notes, Proof   services/proof.service.ts, constants/proofTypes.ts
--   Challenge      services/challenge.service.ts, with verifyChallenge in Challenge/Verify
--   Transfer       services/transfer.service.ts
--   Auth           services/auth.service.ts, utils/jwt.util.ts; bcrypt, jsonwebtoken and the AUTHORITY_
--                  settings are the record Identity
--   Lock           utils/lock.util.ts: async functions as sequences of sections, the promises that
--                  then(fn, fn) and catch make for each call, and the turns of the event loop, in any
--                  order that the promises allow; Current, Order and Exclusion compare them with
--                  functions that run one after another
--   Explorer       services/explorer.service.ts: state changes, the pages of the ledger (Pages, Presses), and
--                  the entries that a node knows (Receipts), over a provider and a decoder
--   Http           middlewares, validators (Body), controllers (Controllers, Exchange) and routes
--                  (Routes), composed into one function from a request to a response (handle);
--                  Reach is the relation of the states that the server reaches
--   Client         apps/client/src/lib/zk.ts (Zk), buildCircuitInput of app/proofs/generate/page.tsx
--                  (Witness), and the paging of app/explorer/page.tsx (ExplorerPage)
--   Circuit        circuits/circuits: the constraints of four circuits, and the owner's witnesses
--   Tests          examples at concrete inputs
--
-- Names: a function keeps its name in snake case (approveLand is approve_land), a document its
-- type. A collection is a list in the order of creation, an ObjectId and a date a number, an
-- optional path an Option; a Map from leaf index to commitment is an association list in the
-- order of insertion. A run of `if (...) throw` lines is a list of guards, taken in order.
--
-- Requests, in Http, run one after another, each in one step; their awaits interleave in Lock only,
-- for functions of any kind. In one request the clock, the random bytes, the salt of bcrypt and the
-- time in a token answer once; another request has other answers.
--
-- Bounds. The tree has 2 ^ 20 leaves. The loops over the levels recurse on the number of levels
-- left, the others on lists. The digits of a number are taken with as much fuel as the number,
-- which division by the base uses up no faster.
--
-- Not modelled: Express, multer and mongoose themselves, whose answers to a path, a form and a query
-- are taken as the arguments of the handlers; the bytes of the circuits' artifacts, the health route, configuration, logging and scripts (input and output); the handlers outside the
-- lock interleaved with those inside; the contracts; and the client's pages and stores, but for the
-- parts named above. The limit and the cursor of the explorer are natural numbers in a query of digits,
-- and any other text counts as absent, where the code clamps a negative limit and hands a fraction, a
-- negative cursor or NaN to the database. The order that the database gives to ledger entries of one
-- time is fixed. Texts are trimmed and put in lower case on ASCII, and Number reads decimal
-- numerals only.
pub mod Prelude
pub mod Errors
pub mod Json
pub mod Externals
pub mod Field
pub mod Merkle
pub mod Db
pub mod Action
pub mod Auth
pub mod Zk
pub mod Chain
pub mod Lock
pub mod Registry
pub mod DeedCrypto
pub mod Ipfs
pub mod Land
pub mod Notes
pub mod Proof
pub mod Challenge
pub mod Transfer
pub mod Explorer
pub mod Client
pub mod Circuit
pub mod Http
pub mod Tests
