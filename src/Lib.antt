-- ===== src/Lib.antt =====
-- A model of volumetric_mapping: a map of the environment in an octree (the class OctomapWorld), the
-- base class that prepares sensor data for it (WorldBase), and the ROS node around it
-- (OctomapManager).
--
-- The program's parts, the files that model them, and the code that they follow:
--
-- - World.antt and World/: OctomapWorld of octomap_world/src/octomap_world.cc and
--   octomap_world/include/octomap_world/octomap_world.h. The state is the record OctomapWorld
--   (octree_, params_ and robot_size_; octree_ is an option, since the pointer can be null).
--   World/Setup: construction, copying, parameters, messages, files. World/Insert: castRay,
--   updateOccupancy and the two insertion functions. World/Status, World/Speckle, World/Line: the
--   status of a cell, of a box and of a line. World/Collision: collisions of the robot. World/Region:
--   adjustBoundingBox, setFree, setOccupied, setBordersOccupied and the bounds of the map.
--   World/Inflate: convertUnknownToFree and inflateOccupied. World/Boxes, World/Clouds,
--   World/Nearest: boxes, point clouds, getNearestFreePoint. World/Changes: getChangedPoints.
--   World/Markers: generateMarkerArray and its colors. World/Present: the octree pointer through the
--   operations.
-- - Base.antt: WorldBase of volumetric_map_base/src/world_base.cc with
--   volumetric_map_base/include/volumetric_map_base/world_base.h and point_weighing.h: the matrix Q,
--   the weights of points, and the choice between the insertions with and without weights.
--   Base/Inputs: the forms in which sensor data arrive, and the matrix Q of unrectified cameras.
--   Base/Virtuals: the virtual functions, as a record that the base class and OctomapWorld fill.
-- - Manager.antt and Manager/: OctomapManager of octomap_world/src/octomap_manager.cc. Its state is
--   the record OctomapManager, which holds the map, the state of the cameras and the queue of
--   transforms. Manager/Settings: the parameters. Manager/Camera: the callbacks for camera infos.
--   Manager/Transforms: the lookup of poses. Manager/Publish: publishAll, whose publications are
--   values. Manager/Services: the services and the callbacks for data. Manager/Node: the constructor,
--   the topics and services with their callbacks, and the main function of
--   octomap_world/src/octomap_manager_node.cc; ROS calls one callback after the other, so a run of
--   the node is a list of events. Manager/Transforms/History and Answered: a log of all transforms, as
--   the specification of the queue.
-- - Platform.antt: what the program uses of code that is not in the repository, as records of
--   operations that every definition takes as an instance argument: floating-point numbers, Eigen
--   vectors, the octree of OctoMap with its messages, and transformations and clouds.
--   Platform/CellMap.antt states the documented laws of the octree that theorems on changes of the
--   map assume, Platform/Codec.antt those of its messages and files, and Platform/Flat.antt is a
--   platform that runs, over which the examples of Tests evaluate the definitions.
-- - KeySet.antt: octomap::KeySet, as a list of keys. Vector.antt: conversions of vectors. Loop.antt:
--   loops whose counter is not structural. Outcome.antt: results, and the faults (null pointers,
--   indices out of range, vectors that cannot be reserved); Outcome/Holds.antt: assertions on
--   results. Common.antt: shared names and lemmas.
--
-- Definitions keep the names of the source in snake case. A function that changes an object takes
-- its state and returns the new one; one that writes through a pointer returns what it writes. Keys
-- have 16-bit coordinates, and `isSpeckleNode` counts in them with their wrap-around. Times are
-- numbers of nanoseconds.
--
-- Fuel: the loops over floating-point or 16-bit counters take fuel, and a loop that uses it up is the
-- fault out_of_fuel. A loop from a to b with a positive step ends within (b - a) / step + 2 rounds as
-- long as adding the step changes the counter; the theorems on boxes state that condition as a bound
-- on the rounds of each axis. Four rounds are enough for each loop of isSpeckleNode at a key whose
-- coordinates lie from 1 to 65533.
--
-- Not modelled: logging, the declarations of classes beyond their state and their virtual functions,
-- and the generated code of volumetric_msgs. ROS, tf, cv_bridge, PCL, image_geometry and
-- cv::stereoRectify are parameters.
mod Common
pub mod Outcome
pub mod Platform
pub mod Vector
pub mod Loop
pub mod KeySet
pub mod World
pub mod Base
pub mod Manager
pub mod Tests
