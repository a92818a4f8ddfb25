-- ===== src/Lib.antt =====
-- The core of the Orion Context Broker: how an HTTP request is read and brought to its service,
-- what an updateContext request does to the entities of the database, what a query answers, what
-- becomes of subscriptions and registrations, and the helpers that these stand on.
--
-- The broker (contextBroker/contextBroker.cpp) takes a request from the HTTP library (lib/rest:
-- connectionTreat, then restService), parses it (lib/xmlParse, lib/jsonParse) into the classes of
-- lib/ngsi and lib/ngsi10, hands it to a service routine (lib/serviceRoutines), and that one to the
-- backend (lib/mongoBackend), which reads and writes MongoDB through a driver and sends
-- notifications. The development models the way of a request through lib/rest to the choice of its
-- service; the backend's update in full, from mongoUpdateContext down to one metadata of one
-- attribute, and what postUpdateContext does with its responses; the backend's query; the
-- operations on subscriptions and on registrations; the discovery of registrations and
-- associations; and the functions on texts and compound values that these call or that check what
-- comes in. The paths below are from the repository's directory src.
--
-- - Base: names that all modules share. A std::string is a list of bytes (Str), `codes` turns a
--   literal into one. Base.Int has the signed integers.
-- - Bson: the values of a document that the backend looks at. Strings are texts, objects and
--   arrays, all else is `other`.
-- - Strings: lib/common/string.cpp (Split: stringSplit, Url: parseUrl, Coords: string2coords,
--   Lower: strToLower, Decimal: printf of a number, Checks: servicePathCheck),
--   lib/common/wsStrip.cpp (Strip), lib/common/idCheck.cpp and lib/parse/forbiddenChars.cpp
--   (Checks), parse8601 of lib/common/globals.cpp (Duration), slashEscape of
--   lib/mongoBackend/MongoGlobal.cpp (Buffer). A C string ends at its first zero byte (c_str).
--   `double` and atof are a parameter (Strings.Coords.Double). Undefined behaviour, an element out
--   of range or an integer overflow, is a result of its own; but atoi is read without the bound of
--   an int, so that a number that no int holds is outside the model, except where the code (the
--   limit) or the model of its caller (parse8601) bounds it.
-- - Compound: lib/parse/CompoundValueNode.cpp (Check), compoundValueBson of
--   lib/mongoBackend/MongoCommonUpdate.cpp (ToBson), and compoundObjectResponse and
--   compoundVectorResponse of MongoGlobal.cpp (FromBson).
-- - Entity: Metadata and ContextAttribute of lib/ngsi, the elements of `attrs` of an entity
--   document, and the functions of MongoCommonUpdate.cpp that update, append and delete one
--   attribute (checkAndUpdate, checkAndDelete, updateAttribute, appendAttribute, deleteAttribute,
--   legalIdUsage). Keys, Consistent, Stored, Names and Effect hold the abstract views that the
--   theorems are stated with.
-- - Registry: the functions of lib/mongoBackend/MongoGlobal.cpp that match registrations against a
--   request. Regular expressions are a parameter (Regex). Complete and First say which
--   registrations of the documents found answer a request.
-- - Update: Subscriptions (addTriggeredSubscriptions), ServicePath (servicePathSubscriptionRegex),
--   Process (processContextAttributeVector), Create (createEntity, processLocation, removeEntity),
--   Notify (processSubscriptions) and Element (processContextElement) of MongoCommonUpdate.cpp,
--   and Context (lib/mongoBackend/mongoUpdateContext.cpp). The state of a call is a record (Run)
--   that each step passes on. The database and the notifier are a parameter
--   (Update.Backend.Backend) over a type of worlds, and Update.Keeps says what it means that they
--   keep a property. A C++ map is a list in the order of its keys.
-- - Rest: lib/rest/rest.cpp and RestService.cpp. UriParams (uriArgumentGet), Mime (httpHeaderGet,
--   wantedOutputSupported, contentTypeCheck), ServicePath (servicePathSplit, servicePathCheck),
--   Connection (connectionTreat: first_call, data_call and last_call, with ConnectionInfo as its
--   state), and Service (restService, with a table of services). Connection.Session is the order
--   in which the HTTP library calls. Parsers and service routines are a parameter (Handlers). The
--   text of an error is kept as what it is rendered from (ErrorText).
-- - Forward: lib/serviceRoutines/postUpdateContext.cpp (Route), with the responses that it takes
--   out (Garbage) and the requests that it sends on. The HTTP client and the parser of its answers
--   are a parameter (Provider).
-- - Query: lib/mongoBackend/mongoQueryContext.cpp (Context), and entitiesQuery of MongoGlobal.cpp:
--   its conditions (Query), one stored attribute (Attribute) and the documents found (Result). The
--   database is a parameter (Context.Source).
-- - Subscribe: mongoSubscribeContext.cpp, mongoUpdateContextSubscription.cpp and
--   mongoUnsubscribeContext.cpp of lib/mongoBackend (Operations), and processConditionVector of
--   MongoGlobal.cpp (Conditions). The collection, the queries and the notifier are a parameter
--   (Store). Contract says what a client can rely on, as steps on a map of subscriptions, and what
--   a store has to satisfy (StoreLaws); Wanted says what the texts of a request ask for.
-- - Register: processRegisterContext of lib/mongoBackend/MongoCommonRegister.cpp and
--   mongoRegisterContext.cpp (Operations). The database and the notifier are a parameter (Store),
--   which holds a map of registrations (Contract).
-- - Discover: lib/mongoBackend/mongoDiscoverContextAvailability.cpp. The database is a parameter
--   (Source). Conventional and Associations say what the two kinds of discovery are answered.
--
-- The loops of these parts run over lists, and are structural recursion, but for two. The loop over
-- the Accept header (Rest.Mime.accept_loop) takes a number of rounds: one more than the header has
-- bytes is enough, since each round takes a byte at least. The loop that prints a number
-- (Strings.Decimal.digits) takes one round more than the number has units. Both are called with
-- that many. The clock is read once for a call. A copy of an object is the object. Semaphores are
-- left out, and so are the statistics counters.
--
-- Not modelled: the trees that the XML and JSON parsers walk over, the classes' rendering, the
-- other service routines and the convenience operations, the subscriptions of NGSI9, the command
-- line, logging, the driver and its connection pool, the HTTP client and the notifier. They read
-- and write the outside world, or turn one text into another.
pub mod Base
pub mod Bson
pub mod Compound
pub mod Strings
pub mod Subscribe
pub mod Entity
pub mod Update
pub mod Rest
pub mod Query
pub mod Forward
pub mod Registry
pub mod Register
pub mod Discover
