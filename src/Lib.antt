-- ===== src/Lib.antt =====
-- The shop backend of this repository: users who charge points, products with a stock, coupons,
-- orders and their payments, and the events between them.
--
-- A request comes to a use case (src/application/use-cases). Creating an order takes the pieces off
-- the products' stock, uses a coupon, validates and saves the order, updates the ranking of the day
-- and publishes an event; paying it takes the points of the user, saves a payment and marks the
-- order as paid. What fails is published too, and the handlers of src/infrastructure/event-handlers
-- compensate it. A coupon is issued to those who come first, as long as a counter in Redis lasts.
-- The use cases call services (src/infrastructure/services), those call the entities
-- and validations of src/domain and the repositories of src/infrastructure/repositories, and those
-- call TypeORM.
--
-- Where each part stands:
--   Domain/{User,Product,Coupon,Order,Payment,RankingLog,ProductSales}: src/domain/entities, a record
--     and a function for each method; Domain/{Points,Stock,Discount,PaymentStatus}: theorems on them
--   Validation/{User,Product,Coupon,Order,Payment,Auth}: src/domain/services;
--     Validation/{Points,Issuance,Orders}: theorems on them
--   Dto: src/presentation/dto; Event: src/domain/events
--   Database/Entity: the columns of src/infrastructure/repositories/typeorm
--   Database/TypeOrm: the repository of the typeorm package, a parameter with its documented laws
--   Database/Accepts: the tables on which every save resolves, for the theorems that a request is
--     answered
--   Database/Redis: src/application/interfaces/services/redis-service.interface.ts, a parameter
--   App: the state of the program and its actions, which return or throw
--   Repository: src/infrastructure/repositories; Repository/Contract: what a save does to the rows
--   Service: src/infrastructure/services, of which Service/{Coupons,Issuing,CouponQueries} are the
--     coupon service; UseCase: src/application/use-cases, of which UseCase/Queries reads points and
--     products through their caches, UseCase/TopSellers is the ranking of three days, and
--     UseCase/AsyncIssue is the coupon request over Kafka with its consumer
--   RedisService: src/infrastructure/services/redis.service.ts without a server, a map of values that
--     expire; RedisService/{Scores,Refines,Sorted,Rank,Expiry}: theorems on it
--   Async: the async functions of the language over a world that every call may change
--   Lock: src/infrastructure/services/redis-distributed-lock.service.ts over Lock/Redis, the commands
--     that it calls; Lock/Memory puts it on RedisService, and Lock/Clients is the step relation of
--     clients that share its locks
--   Interceptor: src/common/interceptors and the options of src/common/decorators; Interceptor/Trace
--     notes the calls that an interceptor makes, for the theorems
--   EventBus: src/common/events/event-bus.ts and the subscriptions of src/app.module.ts
--   Handler: src/infrastructure/event-handlers
--   Reservation, Compensation: theorems on the two loops over the stock
--   Ordering, Paying, Account, Bus, Issuing: theorems on creating orders, on payments, on points, on
--     the bus, on issuing coupons
--   Caching, Ranking, Authentication: theorems on the caches of points and products, on the rankings,
--     on registration, login and tokens
--   Tests: tables in memory that keep TypeORM's laws, and the theorems at concrete requests
--
-- State and errors. An action takes the state of the whole program and returns a result with the
-- next state. What was written before a throw stays written: the decorators for transactions and
-- locks set metadata on methods of use cases and repositories, where the interceptors, which read
-- that of the route handler, do not find it. One request runs at a time, and the clock stands still
-- while it does. Every database save may reject, and then changes nothing; every Redis call may
-- reject. A message of an exception is a constructor, one for each text that the source throws.
--
-- Numbers. Amounts, prices, stocks, points and scores are integers, identifiers and times are
-- naturals, where 0 is the identifier that JavaScript takes for unset. Fractions, NaN and numbers
-- beyond 2^53 are not considered, but for a counter that is no number. Loops run over lists or count
-- down what is left of their retries. The one that does not is the polling of a local lock, which
-- stops when the clock has passed its timeout: it runs on fuel of one turn for each millisecond and
-- one more, enough if a timer waits at least as long as it is told.
--
-- Interleaving. Requests run one after the other, except for the clients of the lock service, whose
-- calls interleave in any order. An interceptor runs around whatever handler, data source and lock
-- service, each a function of a world that it may change in any way.
--
-- Not modelled: HTTP and its validation pipe, logging, the client of Kafka and the data platform,
-- the calls that the Redis service forwards to ioredis, the repositories of rankings and of sales,
-- the query of a coupon request's status and getCouponStock, which are stubs in the source.
pub mod Prelude
pub mod Failure
pub mod Dto
pub mod Domain
pub mod Validation
pub mod Database
pub mod Event
pub mod App
pub mod RedisService
pub mod Repository
pub mod EventBus
pub mod Service
pub mod UseCase
pub mod Handler
pub mod Reservation
pub mod Compensation
pub mod Ordering
pub mod Account
pub mod Caching
pub mod Ranking
pub mod Authentication
pub mod Paying
pub mod Bus
pub mod Issuing
pub mod Async
pub mod Lock
pub mod Interceptor
pub mod Tests
