-- ===== src/Lib.antt =====
-- The services of the FlowDeck backend (a collaboration server: workspaces with boards, pages and
-- channels), modelled from src/services, with the documents of src/models.
--
-- A service is an async function that reads and writes MongoDB collections, raises an ApiError or
-- returns, and causes effects outside: cache invalidation, socket events, notifications, removed
-- files. Here it is an action on one state `Db` (Models/State): `Exec S A = S → Result A × S`
-- (Store/Actions), in do blocks that follow the source line by line. A raise keeps what was
-- written before it. The effects are a list in the state, in the order in which the service causes
-- them; what the queue and the socket server do with them is not modelled, and the drafts that
-- services hand to `notify` are delivered by a call of its own.
--
-- MongoDB is not part of the repository. A collection is a record `Collection` (Store/Collections)
-- of the driver's operations with laws that state their documented effect on the documents, and
-- every service is given a record `Models` of such collections. `list_models` meets the laws.
-- Redis is a record `Redis` (Cache/Commands) in the same way, with a test that tells whether the
-- server answers, and `memory_redis` meets its laws; jsonwebtoken, node:crypto and bcryptjs are a
-- record `Crypto` (Auth/Tokens), whose laws `plain_crypto` meets. Calls to MongoDB do not fail for
-- reasons outside the program, one call runs to its end before the next begins, and a transaction
-- is the sequence of its writes. The ids of new documents, the current time and what is random are
-- arguments of the services.
--
--   Base          the shared names, Boolean tests, counting in lists
--   Store         src/helpers/apiError.ts, collections, actions and the rules to prove things of them
--   Models        src/models/*.ts, src/constants/roles.ts, src/constants/notifications.ts, the state
--   Constants     src/constants/messages.ts and files.ts
--   Boards        src/services/board.service.ts: guards and notifications
--   Boards/Cards, Boards/Moves, Boards/Manage
--                 its operations on cards, on positions, and on boards and lists
--   Boards/Positions, Boards/Requests
--                 the order of the cards in a list, and sequences of requests
--   Workspaces, Workspaces/Members
--                 src/services/workspace.service.ts: workspaces, members and their roles
--   Workspaces/Access, Workspaces/Members/Forgetting, Workspaces/Members/Additions
--                 src/middlewares/workspaceAccess.ts and src/helpers/access.ts: checks of a role, the
--                 cache in front of the memberships, and what an addition leaves there
--   Workspaces/Seats, Workspaces/Requests
--                 what holds of memberships, and sequences of requests
--   Pages, Pages/Tree
--                 src/services/page.service.ts: single pages and revisions, and the tree
--   Pages/Forest, Pages/Tree/Rewrite, Pages/Tree/Moves, Pages/Requests
--                 the paths of pages, what a move does to them, and sequences of requests
--   Pages/History editing, restoring and archiving
--   Auth, Auth/Tokens, Auth/Identity
--                 src/services/auth.service.ts, src/helpers/token.ts; src/services/identity.service.ts,
--                 src/middlewares/authenticate.ts and authorize.ts
--   Auth/Access, Auth/SignIn, Auth/Ending
--                 when an access token is accepted; sign-in; the end of all sessions
--   Auth/Rotation, Auth/Revoking, Auth/Requests, Auth/Reuse
--                 refresh tokens, and sequences of requests
--   Security      src/services/security.service.ts; Security/Network is src/helpers/network.ts
--   Security/Lock, Security/Addresses, Security/Keys
--                 failed attempts, blocked addresses, and their keys
--   Cache, Cache/Remember
--                 src/services/cache.service.ts: counters and flags in Redis; cached values
--   Notifications, Notifications/Recipients, Notifications/Inbox
--                 src/services/notification.service.ts: who is told, and what is stored
--   Helpers       src/helpers/pagination.ts, password.ts and slug.ts
--   Files, Files/Uploads
--                 src/services/file.service.ts: uploads and deletions
--   Admin, Admin/Setup
--                 src/services/admin.service.ts: the account of the super administrator
--   Channels, Channels/Messages
--                 src/services/channel.service.ts: channels and their members; messages
--   Channels/Messages/Guards, Channels/Messages/Reactions
--                 who may write in a channel, and reactions
--
-- Mongoose's limits on the lengths of fields are left to the validators, but for the title of a
-- notification and the name of an uploaded file, which no validator sees. The name on disk of an
-- upload is a new UUID, and the path of a file is the pair that it is made of. Names and titles
-- are texts that the code compares and joins; where it walks a text it is the list of its code
-- units or code points, and what NFKD and lower case make of a name is an argument. Object ids,
-- users and dates are numbers: the code compares them and nothing else. Positions are natural
-- numbers; the code subtracts 1 only from positions that are above another. A count of members,
-- messages or replies that is decremented at 0 stays 0 here, where $inc would go below. A moment
-- counts milliseconds, and the clock of Redis and that of jsonwebtoken whole seconds. The JSON
-- text of a cached membership is the membership. The details of an ApiError, which repeat what the
-- message says, are left out. A password is stored anew even in the case, which the hook on saving
-- skips, that it is the text of the stored hash. Slugs are arguments of the services that create
-- what they name. The fields createdAt and updatedAt, which mongoose keeps, are left out, and so
-- are the aggregation queries that only read (listSessions, listNotifications, unreadCount,
-- listBoards, boardSnapshot, listCards, listWorkspaces, listMembers, listPages, pageTree,
-- listChannels, listMessages, listFiles, storageUsage). Not modelled: the pipelines of
-- search.service.ts and analytics.service.ts, which MongoDB runs; the audit trail; the cached
-- documents that dropByPrefix drops, which are recorded as effects; the parsing of multipart
-- bodies and byte ranges, and streams; sockets, queues and workers; controllers, routes and
-- configuration, which are calls of libraries. Loops are recursions on lists; the one that takes
-- fuel prints a number, with more fuel than the number has digits.
pub mod Admin
pub mod Auth
pub mod Base
pub mod Boards
pub mod Cache
pub mod Channels
pub mod Constants
pub mod Files
pub mod Helpers
pub mod Models
pub mod Notifications
pub mod Pages
pub mod Security
pub mod Store
pub mod Workspaces
