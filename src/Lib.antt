-- ===== src/Lib.antt =====
-- The auth-backend service: its authentication (accounts, sessions, passwords, the second factor,
-- logins by external providers, the OAuth provider, the guards of the routes), its messaging (direct
-- messages, groups, calls, push subscriptions), its agents, and the assistant's projects, threads,
-- allowances, models and instructions.
--
-- Model is the state: `World` holds the tables of prisma/schema.prisma that these parts use, the
-- events emitted and the cookies set. Action is a handler: a function of the world that returns or
-- throws, with the world it leaves in either case. Services holds what comes from packages (the
-- queries of Prisma, jsonwebtoken, bcrypt, otplib, express, the cache manager) as operations with
-- documented laws.
-- Store is the writes of Prisma on a table, unique columns included.
--
--   Auth.Cookie      saveCookie                                    src/auth/auth.service.ts
--   Auth.Session     refresh, logout, revokeToken, findUser, getUserSessionStatus,
--                    getAliveSessions, getUserEvents, info         src/auth/auth.service.ts,
--                    and UserRefreshTokenHandler, UserLogoutHandler, GetUserInfoHandler
--                                                                  src/auth/handlers
--   Auth.Login       login; UserLoginHandler                       src/auth/handlers
--   Auth.Register    UserRegisterHandler                           src/auth/handlers
--   Auth.Mfa         generateQrCode, verifyMfaCode, verifyMfa, generateNewBackupCodes,
--                    disableMfa                                    src/auth/auth.service.ts,
--                    and its helpers                               src/auth/mfa.service.ts
--   Auth.Password    forgotPassword, resetPassword, changePassword src/auth/auth.service.ts
--   Auth.External    validateOAuthLogin, loginWithOAuth            src/auth/auth.service.ts
--   Auth.Profile     the handlers that change a user's columns     src/auth/handlers
--   Privacy          default settings, creation, updates, deletion src/privacy/privacy.service.ts
--   Oauth.Scopes, Oauth.Clients, Oauth.Consents, Oauth.Tokens      src/auth/app.oauth.service.ts
--   Oauth.Run        the requests of the provider that write, one after the other in any order
--                                                                  src/auth/oauth.controller.ts
--   Guards           JwtSecurity.validate, RolesGuard, Auth        src/auth/security,
--                                                                  src/auth/guards, src/auth/decorators
--   Chat.Store       the tables of messaging; setCache, getCache, delCache
--                                                                  src/cache/cache.service.ts
--   Chat.Direct      sendMessage, getConversationThreads           src/messaging/messaging.service.ts
--   Chat.Direct.Inbox     getMessagesForConversation, getUnreadMessages
--   Chat.Direct.Deletion  deleteMessage, deleteConversation
--   Chat.Groups      createGroup, getUserGroups, addGroupMembers, removeGroupMembers,
--                    getGroupDetails, sendGroupMessage, getGroupMessages
--   Chat.Groups.Run  the requests about groups, in any order      src/messaging/messaging.controller.ts
--   Chat.Calls       initiateCall, joinCall, leaveCall, getCallParticipants
--   Chat.Push        the operations on push subscriptions
--   Chat.Gateway     MessagingGateway                              src/messaging/messaging.gateway.ts
--   Agent.Run        executeStep and the kinds of step             src/intelligence/agent/services/
--   Agent.Execution  executeAgent, getNextStep                     agent-execution.service.ts
--   Agent.Manage     the changes of agents                         src/intelligence/agent/agent.service.ts
--   Projects.Manage, Projects.Files, Projects.Reading
--                    projects, versioned files, collaborators      src/intelligence/intelligence.service.ts
--   Projects.Run     the requests about projects, in any order     src/intelligence/intelligence.controller.ts
--   Threads          chat threads: copies, edits, retries, exports src/intelligence/intelligence.service.ts
--   Usage            UsageService; updateRole                      src/intelligence/usage, src/user/user.service.ts
--   Assistant.Models, Assistant.Instructions
--                    the records of models; the instructions and memories of users
--                                                                  src/intelligence/intelligence.service.ts
--
-- Action.Along follows a relation between worlds through the parts of a handler. A deletion that a
-- foreign key without ON DELETE CASCADE refuses throws `reference_violation`.
--
-- A handler of the model carries the name of the source's in snake_case. What is random (salts,
-- codes, secrets, tokens) is an argument. `now` is one reading of the clock in a handler, in
-- milliseconds, and ids are numbers. A Prisma call that nothing awaits is never sent. The helper
-- `response` of express may throw when it is used outside a request, so it returns or throws here.
-- Loops are recursions on the list of rows. Only the loop of executeAgent runs on fuel, one unit
-- for a turn: as many as there are steps, since a run whose pointers lead forward takes each step
-- at most once. A number in a text is
-- printed on fuel that exceeds its digits. `transaction` gives back the world it began with when it
-- throws. The cache is the calls of its manager so far, and what it answers is a function of them.
-- Requests are modelled one at a time: a handler is not interleaved with another.
--
-- Not modelled: the routing and parsing of the controllers, mail, telemetry and logging, the
-- conditions that DTO decorators check, the services that only read users, searchUsers and
-- getUserInfo of messaging, the cipher of the messages, the text of the agents' templates and the
-- calendar of the server's time zone (parameters), the rest of intelligence (the calls of language
-- models, the tools on the file system, browsing, search, applications and their balances), and
-- media and storage.
pub mod Base
pub mod Model
pub mod Action
pub mod Services
pub mod Store
pub mod Privacy
pub mod Auth
pub mod Oauth
pub mod Guards
pub mod Chat
pub mod Agent
pub mod Projects
pub mod Usage
pub mod Threads
pub mod Assistant
mod Tests
